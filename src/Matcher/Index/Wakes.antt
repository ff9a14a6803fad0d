-- ===== src/Matcher/Index/Wakes.antt =====
-- Every phrase is woken by one of its own tokens.
use voip.Prelude.{
  ℕ, suc, ◌+◌, ◌≡◌, refl, true, false, ◌||◌, ◌&&◌, List, [], ◌∷◌, ◌++◌, arith, leb, ◌==◌,
  if◌then◌else◌, ap, sym, ◌∙◌, length, same_text-eq, Text, same_text, same_text_iff, Text-eq, ℕ-eq,
  member, member-set_add, eqb, eqb_self, Bool-cases, inl, inr,
}
use voip.Prelude.Dict
use voip.Prelude.Predicates.{sort_onto, insert_by}
use voip.Matcher.Phrases.{Phrase}
use voip.Metaphone.Loop.{phonetic_key}
use voip.Matcher.Index.{
  Index, positions, triggers_of, append_position, add_trigger, add_triggers, index_from, distinct,
  tidy, build_index,
}

member-append : (n : ℕ) (xs ys : List ℕ) → member n (xs ++ ys) ≡ (member n xs || member n ys)
unfolding member
member-append n [] ys = refl
member-append n (x ∷ xs) ys = ground (arith, member-append n xs ys)

member-insert_by :
    (n x : ℕ) (xs : List ℕ) → member n (insert_by leb x xs) ≡ (eqb n x || member n xs)
unfolding member insert_by
member-insert_by n x [] = refl
member-insert_by n x (y ∷ ys) = ground (arith, member-insert_by n x ys)

pub member-sort_onto :
    (n : ℕ) (sorted xs : List ℕ)
    → member n (sort_onto leb sorted xs) ≡ (member n xs || member n sorted)
unfolding member sort_onto
member-sort_onto n sorted [] = refl
member-sort_onto n sorted (x ∷ xs) =
    ground (arith, member-sort_onto n (insert_by leb x sorted) xs, member-insert_by n x sorted)

member-distinct : (n : ℕ) (xs : List ℕ) → member n (distinct xs) ≡ member n xs
unfolding member distinct
member-distinct n [] = refl
member-distinct n (x ∷ xs) = ground (arith, member-set_add n x (distinct xs), member-distinct n xs)

positions-tidy :
    (n : ℕ) (key : Text) (index : Index)
    → member n (positions (tidy index) key) ≡ member n (positions index key)
unfolding positions tidy
positions-tidy n key [] = refl
positions-tidy n key ((k, ps) ∷ index) = ground (
  arith,
  positions-tidy n key index,
  member-sort_onto n [] (distinct ps),
  member-distinct n ps,
  member_nil n,
)
  where
    member_nil : (m : ℕ) → member m [] ≡ false
    member_nil m = unfold member in refl

positions-put :
    (key k : Text) (ps : List ℕ) (index : Index)
    → positions (Dict.put k ps index) key ≡ (if same_text k key then ps else positions index key)
unfolding positions
positions-put key k ps index = elim (Bool-cases (same_text k key)) [
  | inl e ↦ ground (arith, Dict.get-put k key ps index, e)
  | inr e ↦ ground (arith, Dict.get-put k key ps index, e)
]

positions-append_position :
    (n pos : ℕ) (key k : Text) (index : Index)
    → member n (positions (append_position k pos index) key)
      ≡ ((same_text k key && n == pos) || member n (positions index key))
unfolding append_position member
positions-append_position n pos key k index =
    let there = positions-put key k (positions index k ++ (pos ∷ [])) index in
    elim (Bool-cases (same_text k key)) [
      | inl e ↦
          let same = same_text-eq k key e in
          let same_positions : positions index k ≡ positions index key =
            ap (positions index) same in
          ground (arith, there, same_positions, e, member-append n (positions index k) (pos ∷ []))
      | inr e ↦ ground (arith, there, e)
    ]

-- Waking entries are only ever added, and a trigger adds its own.
add_trigger_wakes :
    (n pos : ℕ) (key t : Text) (index : Index)
    → ((same_text t key && n == pos) || member n (positions index key)) ≡ true
    → member n (positions (add_trigger pos t index) key) ≡ true
unfolding add_trigger
add_trigger_wakes n pos key t index h =
    let first = positions-append_position n pos key t index in
    let second =
      positions-append_position n pos key (126 ∷ phonetic_key t) (append_position t pos index) in
    ground (arith, first, second)

add_triggers_keep :
    (n pos : ℕ) (key : Text) (ts : List Text) (index : Index)
    → member n (positions index key) ≡ true
    → member n (positions (add_triggers pos ts index) key) ≡ true
unfolding add_triggers
add_triggers_keep n pos key [] index h = h
add_triggers_keep n pos key (t ∷ ts) index h =
    add_triggers_keep n pos key ts (add_trigger pos t index)
      (add_trigger_wakes n pos key t index (ground (arith, h)))

add_triggers_wake :
    (pos : ℕ) (key : Text) (ts : List Text) (index : Index)
    → member key ts ≡ true
    → member pos (positions (add_triggers pos ts index) key) ≡ true
unfolding add_triggers member
add_triggers_wake pos key [] index h = cc
add_triggers_wake pos key (t ∷ ts) index h = elim (Bool-cases (same_text key t)) [
  | inl e ↦
      let same = same_text_iff t key in
      let there = same.1 (sym (same_text-eq key t e)) in
      add_triggers_keep pos pos key ts (add_trigger pos t index)
        (add_trigger_wakes pos pos key t index (ground (arith, there, eqb_self pos)))
  | inr e ↦ add_triggers_wake pos key ts (add_trigger pos t index) (ground (arith, h, e))
]

index_from_keeps :
    (all : List Phrase) (n pos : ℕ) (key : Text) (ps : List Phrase) (index : Index)
    → member n (positions index key) ≡ true
    → member n (positions (index_from all pos ps index) key) ≡ true
unfolding index_from
index_from_keeps all n pos key [] index h = h
index_from_keeps all n pos key (p ∷ ps) index h =
    index_from_keeps all n (suc pos) key ps (add_triggers pos (triggers_of all p) index)
      (add_triggers_keep n pos key (triggers_of all p) index h)

index_from_wakes :
    (all before after : List Phrase) (p : Phrase) (pos : ℕ) (key : Text) (index : Index)
    → member key (triggers_of all p) ≡ true
    → member
        (pos + length before)
        (positions (index_from all pos (before ++ (p ∷ after)) index) key)
      ≡ true
unfolding index_from
index_from_wakes all [] after p pos key index h =
    let at_pos : pos + 0 ≡ pos = omega arith in
    rw at_pos (
      index_from_keeps all pos (suc pos) key after (add_triggers pos (triggers_of all p) index)
        (add_triggers_wake pos key (triggers_of all p) index h))
index_from_wakes all (b ∷ before) after p pos key index h =
    let shifted : pos + suc (length before) ≡ suc pos + length before = omega arith in
    rw shifted (
      index_from_wakes all before after p (suc pos) key (add_triggers pos (triggers_of all b) index)
        h)

-- Looked up in the index, each trigger of a phrase gives the position at which the corpus holds
-- the phrase.
pub build_index_wakes :
    (before after : List Phrase) (p : Phrase) (key : Text)
    → member key (triggers_of (before ++ (p ∷ after)) p) ≡ true
    → member (length before) (positions (build_index (before ++ (p ∷ after))) key) ≡ true
unfolding build_index
build_index_wakes before after p key h =
    let all = before ++ (p ∷ after) in
    let from_zero : 0 + length before ≡ length before = omega arith in
    positions-tidy (length before) key (index_from all 0 all [])
    ∙ (rw from_zero at (index_from_wakes all before after p 0 key [] h))
