-- ===== src/Actuator/Endpoints.antt =====
-- The order of the customer IPs is their identity.
use voip.Prelude.{
  ℕ, suc, ◌+◌, ◌≡◌, refl, ◌∙◌, false, List, [], ◌∷◌, ◌++◌, some, arith, length, Text, same_text_iff,
  Text-eq, member,
}
use voip.Prelude.Dict
use voip.Actuator.Manager.{pkclient, endpoint_map_from, endpoint_map}

module _ (decimal : ℕ → Text) where
  -- An address that does not occur keeps what it had.
  absent_keeps :
      (ip : Text) (i : ℕ) (ips : List Text) (known : List (Text × Text))
      → member ip ips ≡ false
      → Dict.get ip (endpoint_map_from decimal i ips known) ≡ Dict.get ip known
  unfolding endpoint_map_from member
  absent_keeps ip i [] known h = refl
  absent_keeps ip i (jp ∷ ips) known h =
      absent_keeps ip (suc i) ips (Dict.put jp (pkclient decimal (i + 1)) known) (ground (arith, h))
      ∙ ground (
        arith,
        Dict.get-put jp ip (pkclient decimal (i + 1)) known,
        Text-eq.beq_iff ip jp,
        Text-eq.beq_iff jp ip,
        h,
      )

  from_get :
      (before after : List Text) (ip : Text) (i : ℕ) (known : List (Text × Text))
      → member ip after ≡ false
      → Dict.get ip (endpoint_map_from decimal i (before ++ (ip ∷ after)) known)
        ≡ some (pkclient decimal (i + length before + 1))
  unfolding endpoint_map_from
  from_get [] after ip i known h =
      let place : i + 0 + 1 ≡ i + 1 = omega arith in
      rw place (
        absent_keeps ip (suc i) after (Dict.put ip (pkclient decimal (i + 1)) known) h
        ∙ ground (
          arith,
          Dict.get-put ip ip (pkclient decimal (i + 1)) known,
          (same_text_iff ip ip).1 refl,
        ))
  from_get (jp ∷ before) after ip i known h =
      let place : i + suc (length before) + 1 ≡ suc i + length before + 1 = omega arith in
      rw place (from_get before after ip (suc i) (Dict.put jp (pkclient decimal (i + 1)) known) h)

  -- The endpoint of an address is numbered by the place, from 1, of its last occurrence in the list
  -- of customer addresses.
  endpoint_map-get :
      (before after : List Text) (ip : Text)
      → member ip after ≡ false
      → Dict.get ip (endpoint_map decimal (before ++ (ip ∷ after)))
        ≡ some (pkclient decimal (length before + 1))
  unfolding endpoint_map
  endpoint_map-get before after ip h =
      let place : 0 + length before + 1 ≡ length before + 1 = omega arith in
      rw place at (from_get before after ip 0 [] h)
