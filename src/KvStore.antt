-- ===== src/KvStore.antt =====
-- sdk/rust/src/kvstore.rs: the key-value store. A value is its JSON text, by a parameter, and a
-- statement of SQL succeeds; the clock is an argument.
pub mod History
use airyfs.Prelude.{ℕ, Option, none, some, List, [], ◌∷◌, bytes_eq}
use airyfs.Prelude.Table.{select, update, delete}
use airyfs.Db.{Bytes}

pub record Stored : Type 0 where
  pub value : Bytes
  pub created_at : ℕ
  pub updated_at : ℕ

-- `kv_store`, in the order of the rows
abbrev pub KvStore : Type 0
KvStore = List (Bytes × Stored)

-- an operation that fails fails in serde_json
pub data KvResult {ℓ} (A : Type ℓ) : Type ℓ where
  ok : A → KvResult A
  json_error : KvResult A

-- ON CONFLICT(key) DO UPDATE keeps the row and when it was made
unfoldable pub upsert : ℕ → Bytes → Bytes → KvStore → KvStore
upsert now key text store = elim (select key store) [
  | none ↦ (key, record { value = text; created_at = now; updated_at = now }) ∷ store
  | some old ↦ update key (λ row. record row { value = text; updated_at = now }) store
]

unfoldable pub delete_key : Bytes → KvStore → KvStore
delete_key key store = delete key store

unfoldable pub keys : KvStore → List Bytes
keys [] = []
keys ((key, row) ∷ store) = key ∷ keys store

module _ {V : Type 0} (to_string : V → Option Bytes) (from_str : Bytes → Option V) where
  unfoldable pub set : ℕ → Bytes → V → KvStore → KvResult KvStore
  set now key v store = elim (to_string v) [
    | none ↦ json_error
    | some text ↦ ok (upsert now key text store)
  ]

  unfoldable pub get : Bytes → KvStore → KvResult (Option V)
  get key store = elim (select key store) [
    | none ↦ ok none
    | some row ↦ elim (from_str row.value) [ none ↦ json_error | some v ↦ ok (some v) ]
  ]
