-- ===== src/PrivilegedWrite/Intent.antt =====
-- src/api/routes/_privileged_write_contract.py: the canonical form of a request's intent. The keys of a
-- mapping are texts. A UUID, like any other value with a `hex` method, such as a float, carries the text
-- that `str` gives, a time the one that `isoformat` gives in UTC, and an enumeration's member its value,
-- which stays as it is.
use horadus.Prelude.{
  Bool, List, Option, [], codes, false, if◌then◌else◌, ltb, none, some, true, ℕ, ◌&&◌, ◌==◌, ◌||◌,
  ◌∷◌,
}

pub data Scalar : Type 0 where
  null : Scalar
  number : ℕ → Scalar
  text uuid datetime : List ℕ → Scalar

mutual
  pub data Value : Type 0 where
    scalar : Scalar → Value
    mapping : Fields → Value
    sequence : Values → Value
    enumeration : Value → Value

  pub data Fields : Type 0 where
    no_fields : Fields
    field : List ℕ → Value → Fields → Fields

  pub data Values : Type 0 where
    no_values : Values
    value : Value → Values → Values

-- `a < b` on texts
unfoldable pub text_ltb : List ℕ → List ℕ → Bool
text_ltb [] [] = false
text_ltb [] (d ∷ t) = true
text_ltb (c ∷ s) [] = false
text_ltb (c ∷ s) (d ∷ t) = ltb c d || (c == d && text_ltb s t)

-- `sorted` by the key, which keeps the order of equal keys
unfoldable pub insert_field : List ℕ → Value → Fields → Fields
insert_field key item no_fields = field key item no_fields
insert_field key item (field k v fields) =
    let rest = insert_field key item fields in
    if text_ltb k key then field k v rest else field key item (field k v fields)

abbrev normalize_scalar : Scalar → Scalar
normalize_scalar (uuid s) = text s
normalize_scalar (datetime s) = text s
normalize_scalar s = s

unfoldable mutual
  unfolding insert_field

  pub normalize_jsonable : Value → Value
  normalize_jsonable (scalar s) = scalar (normalize_scalar s)
  normalize_jsonable (enumeration v) = v
  normalize_jsonable (mapping fields) = mapping (normalize_fields fields)
  normalize_jsonable (sequence values) = sequence (normalize_values values)

  pub normalize_fields : Fields → Fields
  normalize_fields no_fields = no_fields
  normalize_fields (field k v fields) =
      insert_field k (normalize_jsonable v) (normalize_fields fields)

  pub normalize_values : Values → Values
  normalize_values no_values = no_values
  normalize_values (value v values) = value (normalize_jsonable v) (normalize_values values)

abbrev has_fields : Fields → Bool
has_fields no_fields = false
has_fields (field k v pairs) = true

abbrev append_fields : Fields → Fields → Fields
append_fields no_fields gs = gs
append_fields (field k v fs) gs = field k v (append_fields fs gs)

abbrev part : List ℕ → Option Fields → Fields
part name none = no_fields
part name (some fields) =
    if has_fields fields
    then field name (normalize_jsonable (mapping fields)) no_fields
    else no_fields

unfoldable pub normalize_request_intent : Option Fields → Option Fields → Fields
unfolding normalize_jsonable
normalize_request_intent payload extras =
    append_fields (part (codes "payload") payload) (part (codes "extras") extras)

-- `digest` is the hash of the text that `json.dumps` gives.
abbrev pub request_fingerprint : (Value → List ℕ) → Fields → List ℕ
request_fingerprint digest intent = digest (normalize_jsonable (mapping intent))
