-- ===== src/Admission/Targets/Laws.antt =====
-- What the sets that `toSet` builds hold, and when two of them overlap.
use bazel_broker.Common.{
  ◌≡◌, refl, sym, subst, ◌∙◌, ◌≢◌, ◌⊎◌, ◌↔◌, inl, inr, true, false, ◌||◌, List, [], ◌∷◌, ◌++◌,
  length, any, GoString, str_eq, str_eq_iff, str_eq_refl, is_empty, ltb, Bool-cases, arith,
}
use bazel_broker.Admission.Targets.{
  fields, normalize, member, add_word, add_words, to_set_from, to_set, shares, overlaps,
}

-- A set of target patterns: none is empty and none stands twice.
abbrev pub IsTargetSet : List GoString → Type 0
IsTargetSet [] = Unit
IsTargetSet (x ∷ xs) = (x ≢ []) × (member x xs ≡ false) × IsTargetSet xs

pub member-append :
    (k : GoString) (xs ys : List GoString) → member k (xs ++ ys) ≡ (member k xs || member k ys)
unfolding member
member-append k [] ys = refl
member-append k (x ∷ xs) ys = ground (arith, member-append k xs ys)

str_eq_sym : (s t : GoString) → str_eq s t ≡ str_eq t s
str_eq_sym s t = ground (arith, str_eq_iff s t, str_eq_iff t s)

snoc-IsTargetSet :
    (t : GoString) (xs : List GoString)
    → t ≢ []
    → member t xs ≡ false
    → IsTargetSet xs
    → IsTargetSet (xs ++ t ∷ [])
unfolding member
snoc-IsTargetSet t [] h absent set = (h, refl, tt)
snoc-IsTargetSet t (x ∷ xs) h absent set = (
  set.0,
  ground (arith, member-append x xs (t ∷ []), str_eq_sym t x),
  snoc-IsTargetSet t xs h (ground arith) set.2,
)

nonempty : (t : GoString) → is_empty t ≡ false → t ≢ []
nonempty [] h e = cc
nonempty (c ∷ t) h e = cc

add_word-IsTargetSet :
    (out : List GoString) (t : GoString) → IsTargetSet out → IsTargetSet (add_word out t)
unfolding add_word
add_word-IsTargetSet out t set = elim (Bool-cases (is_empty (normalize t))) [
  | inl e ↦ rw (e, add_word) set
  | inr e ↦ elim (Bool-cases (member (normalize t) out)) [
    | inl m ↦ rw (e, m, add_word) set
    | inr m ↦ rw (e, m, add_word) (snoc-IsTargetSet (normalize t) out (nonempty _ e) m set)
  ]
]

add_words-IsTargetSet :
    (out : List GoString) (words : List GoString)
    → IsTargetSet out
    → IsTargetSet (add_words out words)
unfolding add_words
add_words-IsTargetSet out [] set = set
add_words-IsTargetSet out (t ∷ words) set =
    add_words-IsTargetSet (add_word out t) words (add_word-IsTargetSet out t set)

to_set_from-IsTargetSet :
    (out targets : List GoString) → IsTargetSet out → IsTargetSet (to_set_from out targets)
unfolding to_set_from
to_set_from-IsTargetSet out [] set = set
to_set_from-IsTargetSet out (raw ∷ targets) set =
    to_set_from-IsTargetSet (add_words out (fields raw)) targets
      (add_words-IsTargetSet out (fields raw) set)

-- The set that `toSet` builds holds no empty pattern and no pattern twice.
to_set-IsTargetSet : (targets : List GoString) → IsTargetSet (to_set targets)
unfolding to_set
to_set-IsTargetSet targets = to_set_from-IsTargetSet [] targets tt

-- Some normalised word of `words` is the pattern `k`.
abbrev pub Denotes : GoString → List GoString → Type 0
Denotes k words = any (λ w. str_eq (normalize w) k) words ≡ true

member-add_word :
    (k t : GoString) (out : List GoString)
    → k ≢ []
    → member k (add_word out t) ≡ (member k out || str_eq (normalize t) k)
unfolding add_word member
member-add_word k t out h = elim (Bool-cases (is_empty (normalize t))) [
  | inl e ↦
      rw (e, add_word) (ground (arith, str_eq_iff (normalize t) k, empty_is_nil (normalize t) e))
  | inr e ↦ elim (Bool-cases (member (normalize t) out)) [
    | inl m ↦ rw (e, m, add_word) (known (Bool-cases (str_eq (normalize t) k)) m)
    | inr m ↦ rw (e, m, add_word) (member-append k out (normalize t ∷ []) ∙ last)
  ]
]
  where
    empty_is_nil : (s : GoString) → is_empty s ≡ true → s ≡ []
    empty_is_nil [] e = refl
    empty_is_nil (c ∷ s) e = cc

    known :
        (str_eq (normalize t) k ≡ true) ⊎ (str_eq (normalize t) k ≡ false)
        → member (normalize t) out ≡ true
        → member k out ≡ (member k out || str_eq (normalize t) k)
    known (inl same) m =
        ground (arith, subst (λ z. member z out ≡ true) ((str_eq_iff (normalize t) k).0 same) m)
    known (inr other) m = ground arith

    last : (member k out || member k (normalize t ∷ [])) ≡ (member k out || str_eq (normalize t) k)
    last = ground arith

-- Two sets overlap exactly when a pattern stands in both.
shares_sound :
    (a b : List GoString)
    → shares a b ≡ true
    → (k : GoString) × (member k a ≡ true) × (member k b ≡ true)
unfolding shares member
shares_sound [] b h = cc
shares_sound (x ∷ a) b h = elim (Bool-cases (member x b)) [
  | inl e ↦ (x, ground (arith, str_eq_refl x), e)
  | inr e ↦ let (k, in_a, in_b) = shares_sound a b (ground arith) in (k, ground arith, in_b)
]

shares_complete :
    (a b : List GoString) (k : GoString) → member k a ≡ true → member k b ≡ true → shares a b ≡ true
unfolding shares member
shares_complete [] b k in_a in_b = cc
shares_complete (x ∷ a) b k in_a in_b = elim (Bool-cases (str_eq x k)) [
  | inl e ↦ ground (arith, subst (λ z. member z b ≡ true) (sym ((str_eq_iff x k).0 e)) in_b)
  | inr e ↦ ground (arith, shares_complete a b k)
]

-- The loop over the smaller set finds a shared pattern exactly when there is one.
pub overlaps_iff :
    (a b : List GoString)
    → (overlaps a b ≡ true) ↔ ((k : GoString) × (member k a ≡ true) × (member k b ≡ true))
unfolding overlaps
overlaps_iff a b = elim (Bool-cases (ltb (length b) (length a))) [
  | inl e ↦
      rw (e, overlaps)
        (
          λ h. let (k, in_b, in_a) = shares_sound b a h in (k, in_a, in_b),
          λ (k, in_a, in_b). shares_complete b a k in_b in_a,
        )
  | inr e ↦ rw (e, overlaps) (shares_sound a b, λ (k, in_a, in_b). shares_complete a b k in_a in_b)
]

-- The order of the two sets does not matter.
pub overlaps_comm : (a b : List GoString) → overlaps a b ≡ overlaps b a
overlaps_comm a b = elim (Bool-cases (overlaps a b)) [
  | inl e ↦
      let (k, in_a, in_b) = (overlaps_iff a b).0 e in e ∙ sym ((overlaps_iff b a).1 (k, in_b, in_a))
  | inr e ↦ elim (Bool-cases (overlaps b a)) [
    | inl f ↦ let (k, in_b, in_a) = (overlaps_iff b a).0 f in absurd (clash k in_a in_b e)
    | inr f ↦ e ∙ sym f
  ]
]
  where
    clash : (k : GoString) → member k a ≡ true → member k b ≡ true → overlaps a b ≡ false → ⊥
    clash k in_a in_b e = cc ((overlaps_iff a b).1 (k, in_a, in_b))
