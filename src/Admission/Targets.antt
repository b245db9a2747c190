-- ===== src/Admission/Targets.antt =====
-- internal/admission/gates.go: `toSet` and `overlaps`; engine.go: `splitTargets`. A set of strings is
-- a list that holds each once.
pub mod Laws
pub mod Prefix
use bazel_broker.Common.{
  ℕ, Bool, true, false, ◌&&◌, ◌||◌, List, [], ◌∷◌, ◌++◌, length, any, GoString, lit, str_eq,
  is_empty, ltb, leb, ◌==◌, if◌then◌else◌,
}

-- `unicode.IsSpace`.
unfoldable pub is_space : ℕ → Bool
is_space c =
    leb 9 c && leb c 13
    || c == 32
    || c == 0x85
    || c == 0xa0
    || c == 0x1680
    || leb 0x2000 c && leb c 0x200a
    || c == 0x2028
    || c == 0x2029
    || c == 0x202f
    || c == 0x205f
    || c == 0x3000

-- `strings.Fields`, with the word read so far.
unfoldable pub fields_from : GoString → GoString → List GoString
fields_from word [] = if is_empty word then [] else word ∷ []
fields_from word (c ∷ s) =
    let rest = fields_from [] s in
    let more = fields_from (word ++ c ∷ []) s in
    if is_space c then if is_empty word then rest else word ∷ rest else more

unfoldable pub fields : GoString → List GoString
fields s = fields_from [] s

unfoldable pub trim_left : GoString → GoString
trim_left [] = []
trim_left (c ∷ s) = if is_space c then trim_left s else c ∷ s

unfoldable pub trim_right : GoString → GoString
trim_right [] = []
trim_right (c ∷ s) = let rest = trim_right s in if is_empty rest && is_space c then [] else c ∷ rest

-- `strings.TrimSpace`.
unfoldable pub trim_space : GoString → GoString
trim_space s = trim_right (trim_left s)

unfoldable pub has_prefix : GoString → GoString → Bool
has_prefix s [] = true
has_prefix [] (p ∷ prefix) = false
has_prefix (c ∷ s) (p ∷ prefix) = c == p && has_prefix s prefix

abbrev drop_like : GoString → GoString → GoString
drop_like s [] = s
drop_like [] (p ∷ prefix) = []
drop_like (c ∷ s) (p ∷ prefix) = drop_like s prefix

-- `strings.TrimPrefix`.
unfoldable pub trim_prefix : GoString → GoString → GoString
trim_prefix s prefix = if has_prefix s prefix then drop_like s prefix else s

unfoldable pub member : GoString → List GoString → Bool
member k set = any (λ x. str_eq x k) set

-- The body of the loop of `toSet`.
unfoldable pub normalize : GoString → GoString
normalize t = trim_prefix (trim_space t) (lit "@//")

unfoldable pub add_word : List GoString → GoString → List GoString
add_word out t =
    let t' = normalize t in
    if is_empty t' then out else if member t' out then out else out ++ t' ∷ []

unfoldable pub add_words : List GoString → List GoString → List GoString
add_words out [] = out
add_words out (t ∷ words) = add_words (add_word out t) words

unfoldable pub to_set_from : List GoString → List GoString → List GoString
to_set_from out [] = out
to_set_from out (raw ∷ targets) = to_set_from (add_words out (fields raw)) targets

unfoldable pub to_set : List GoString → List GoString
to_set targets = to_set_from [] targets

-- The loop of `overlaps` over the smaller set.
unfoldable pub shares : List GoString → List GoString → Bool
shares a b = any (λ k. member k b) a

unfoldable pub overlaps : List GoString → List GoString → Bool
overlaps a b = if ltb (length b) (length a) then shares b a else shares a b

unfoldable pub split_targets : GoString → List GoString
split_targets s = if is_empty s then [] else to_set (s ∷ [])
