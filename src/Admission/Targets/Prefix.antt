-- ===== src/Admission/Targets/Prefix.antt =====
-- A target with the repository prefix `@//`, as `toSet` reads it.
use bazel_broker.Common.{
  inl, inr, ◌≡◌, refl, ap, ◌∙◌, ◌≢◌, false, [], ◌∷◌, ◌++◌, length, All, GoString, lit, str_eq,
  str_eq_iff, is_empty, Bool-cases, arith, if◌then◌else◌,
}
use bazel_broker.Admission.Targets.{
  is_space, fields_from, fields, trim_left, trim_right, trim_space, has_prefix, trim_prefix,
  normalize, member, add_word, add_words, to_set_from, to_set, shares, overlaps,
}
use mathlib.Core.List.{append_assoc, append-nil}

-- A word: it holds no white space.
abbrev pub IsWord : GoString → Type 0
IsWord w = All (λ c. is_space c ≡ false) w

fields_from-word :
    (read w : GoString)
    → IsWord w
    → fields_from read w ≡ (if is_empty (read ++ w) then [] else (read ++ w) ∷ [])
unfolding fields_from
fields_from-word read [] h = rw append-nil
fields_from-word read (c ∷ w) h =
    rw (h.0, fields_from) (fields_from-word (read ++ c ∷ []) w h.1 ∙ rw append_assoc)

trim_right-word : (w : GoString) → IsWord w → trim_right w ≡ w
unfolding trim_right
trim_right-word [] h = refl
trim_right-word (c ∷ w) h = ground (arith, trim_right-word w h.1)

trim_left-word : (w : GoString) → IsWord w → trim_left w ≡ w
unfolding trim_left
trim_left-word [] h = refl
trim_left-word (c ∷ w) h = rw h.0

trim_space-word : (w : GoString) → IsWord w → trim_space w ≡ w
unfolding trim_space
trim_space-word w h = rw (trim_left-word w h) (trim_right-word w h)

to_set-word :
    (w : GoString)
    → IsWord w
    → w ≢ []
    → to_set (w ∷ [])
      ≡ (if is_empty (trim_prefix w (lit "@//")) then [] else trim_prefix w (lit "@//") ∷ [])
unfolding to_set to_set_from fields add_words add_word normalize member
to_set-word [] h ne = absurd (ne refl)
to_set-word (c ∷ w) h ne = rw (fields_from-word [] (c ∷ w) h, trim_space-word (c ∷ w) h) refl

longer-ne : (w : GoString) → str_eq (lit "//" ++ w) w ≡ false
longer-ne w = elim (Bool-cases (str_eq (lit "//" ++ w) w)) [
  | inl e ↦ absurd (omega (arith, ap length ((str_eq_iff (lit "//" ++ w) w).0 e)))
  | inr e ↦ e
]

to_set-prefixed : (w : GoString) → IsWord w → w ≢ [] → to_set ((lit "@//" ++ w) ∷ []) ≡ w ∷ []
unfolding trim_prefix has_prefix is_space
to_set-prefixed [] h ne = absurd (ne refl)
to_set-prefixed (c ∷ w) h ne = to_set-word (lit "@//" ++ c ∷ w) (prefix_word h) (λ e. cc)
  where
    prefix_word : IsWord (c ∷ w) → IsWord (lit "@//" ++ c ∷ w)
    prefix_word k = (refl, (refl, (refl, k)))

to_set-plain : (w : GoString) → IsWord w → to_set ((lit "//" ++ w) ∷ []) ≡ (lit "//" ++ w) ∷ []
unfolding trim_prefix has_prefix is_space
to_set-plain w h = to_set-word (lit "//" ++ w) (refl, (refl, h)) (λ e. cc)

-- For every label `//w`, its spelling `@//w` and its spelling `//w` do not overlap: the prefix `@//`
-- is removed, where the comment on `toSet` says that it becomes `//`.
pub overlaps-repo_prefix :
    (w : GoString)
    → IsWord w
    → w ≢ []
    → overlaps (to_set ((lit "@//" ++ w) ∷ [])) (to_set ((lit "//" ++ w) ∷ [])) ≡ false
unfolding overlaps shares member
overlaps-repo_prefix w h ne =
    rw (to_set-prefixed w h ne, to_set-plain w h) (ground (arith, longer-ne w))
