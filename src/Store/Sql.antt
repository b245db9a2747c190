-- ===== src/Store/Sql.antt =====
-- The results of the store's statements.
use bazel_broker.Common.{◌≡◌, refl, ap, Option, none, some}

-- What the driver reports, as far as the source tells errors apart, and a text that is no JSON list.
pub data SqlError : Type 0 where
  duplicate_column sql_failed bad_json : SqlError

pub data SqlResult {ℓ} (A : Type ℓ) : Type ℓ where
  done : A → SqlResult A
  failed_with : SqlError → SqlResult A

infixl 5 ◌>>=◌
abbrev pub ◌>>=◌ {ℓ κ} : {A : Type ℓ} {B : Type κ} → SqlResult A → (A → SqlResult B) → SqlResult B
done a >>= f = f a
failed_with e >>= f = failed_with e

pub >>=-eq-done {ℓ κ} :
    {A : Type ℓ} {B : Type κ} (m : SqlResult A) (f : A → SqlResult B) {b : B}
    → (m >>= f) ≡ done b
    → (a : A) × (m ≡ done a) × (f a ≡ done b)
>>=-eq-done (done a) f h = (a, refl, h)
>>=-eq-done (failed_with e) f h = absurd (cc)

pub done-injective : {A : Type 0} (x y : A) → done x ≡ done y → x ≡ y
done-injective {A} x y h = ap value h
  where
    value : SqlResult A → A
    value (done z) = z
    value (failed_with e) = x

-- A further step on a database, unless the one before it failed.
abbrev pub and_then {ℓ} :
    {Db : Type ℓ} → Option SqlError × Db → (Db → Option SqlError × Db) → Option SqlError × Db
and_then (none, db) f = f db
and_then (some e, db) f = (some e, db)

pub and_then-none {ℓ} :
    {Db : Type ℓ} (x : Option SqlError × Db) (f : Db → Option SqlError × Db)
    → (and_then x f).0 ≡ none
    → (x.0 ≡ none) × (and_then x f ≡ f x.1)
and_then-none (none, db) f h = (refl, refl)
and_then-none (some e, db) f h = absurd (cc)
