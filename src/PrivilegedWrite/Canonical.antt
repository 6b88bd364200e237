-- ===== src/PrivilegedWrite/Canonical.antt =====
-- src/api/routes/_privileged_write_contract.py: that the fingerprint of an intent does not depend on the order of its fields.
use horadus.PrivilegedWrite.Intent.{Value, Fields, mapping, field}
use horadus.Prelude.{List, ℕ, ◌≢◌}

-- The same fields in another order, also in mappings that are fields, at any depth; keys that change
-- places differ.
pub data IsReordered : Fields → Fields → Type 0 where
  same : {f : Fields} → IsReordered f f
  swap :
      {k l : List ℕ} {v w : Value} {f : Fields}
      → k ≢ l
      → IsReordered (field k v (field l w f)) (field l w (field k v f))
  later :
      {k : List ℕ} {v : Value} {f g : Fields}
      → IsReordered f g
      → IsReordered (field k v f) (field k v g)
  inside :
      {k : List ℕ} {f g h : Fields}
      → IsReordered f g
      → IsReordered (field k (mapping f) h) (field k (mapping g) h)
  both : {f g h : Fields} → IsReordered f g → IsReordered g h → IsReordered f h
