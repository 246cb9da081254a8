-- ===== src/KvStore/History.antt =====
-- What the store answers after any history of operations.
use airyfs.Prelude.{
  ℕ, ◌≡◌, ◌⊎◌, refl, Option, none, some, List, [], ◌∷◌, bytes_eq, bytes_beq, bytes_beq_iff,
  if◌then◌else◌, Option-cases, inl, inr, arith,
}
use airyfs.Prelude.Table.{select, select-update, select-delete_where}
use airyfs.Db.{Bytes}
use airyfs.KvStore.{Stored, KvStore, KvResult, ok, json_error, upsert, delete_key, set, get}

KvResult-cases : {A : Type 0} (r : KvResult A) → (r ≡ json_error) ⊎ ((a : A) × (r ≡ ok a))
KvResult-cases json_error = inl refl
KvResult-cases (ok a) = inr (a, refl)

value_of : (row : Option Stored) → Option Bytes
value_of none = none
value_of (some row) = some row.value

-- a text written for a key is read for it, and for no other key
value-upsert :
    (now : ℕ) (key k text : Bytes) (store : KvStore)
    → value_of (select k (upsert now key text store))
      ≡ (if bytes_beq key k then some text else value_of (select k store))
unfolding upsert select value_of
value-upsert now key k text store = elim (Option-cases (select key store)) [
  | inl h ↦ rw (h, upsert) (ground arith)
  | inr (old, h) ↦
      rw (h, upsert)
        (ground (
          arith,
          h,
          bytes_beq_iff key k,
          select-update key k (λ (row : Stored). record row { value = text; updated_at = now })
              store,
        ))
]

module _ {V : Type 0} (to_string : V → Option Bytes) (from_str : Bytes → Option V) where
  pub data Op : Type 0 where
    put : ℕ → Bytes → V → Op
    remove : Bytes → Op

  unfoldable pub apply : Op → KvStore → KvResult KvStore
  apply (put now key v) store = set to_string from_str now key v store
  apply (remove key) store = ok (delete_key key store)

  unfoldable pub run : List Op → KvStore → KvResult KvStore
  run [] store = ok store
  run (op ∷ ops) store = elim (apply op store) [ json_error ↦ json_error | ok next ↦ run ops next ]

  -- what was put last for a key, and not removed since
  unfoldable pub latest : Bytes → List Op → Option V → Option V
  latest k [] before = before
  latest k (put now key v ∷ ops) before = latest k ops (if bytes_beq key k then some v else before)
  latest k (remove key ∷ ops) before = latest k ops (if bytes_beq key k then none else before)

  abbrev read_value : Option Bytes → KvResult (Option V)
  read_value none = ok none
  read_value (some text) = elim (from_str text) [ none ↦ json_error | some v ↦ ok (some v) ]

  get-value :
      (k : Bytes) (store : KvStore)
      → get to_string from_str k store ≡ read_value (value_of (select k store))
  unfolding get value_of
  get-value k store = elim (Option-cases (select k store)) [
    | inl h ↦ rw (h, get) refl
    | inr (row, h) ↦ rw (h, get) refl
  ]

  module _ (faithful : (v : V) (s : Bytes) → to_string v ≡ some s → from_str s ≡ some v) where
    set-get :
        (now : ℕ) (key k : Bytes) (v : V) (before : Option V) (store next : KvStore)
        → get to_string from_str k store ≡ ok before
        → set to_string from_str now key v store ≡ ok next
        → get to_string from_str k next ≡ ok (if bytes_beq key k then some v else before)
    unfolding set value_of
    set-get now key k v before store next g s = elim (Option-cases (to_string v)) [
      | inl h ↦ ground arith
      | inr (text, h) ↦ ground (
        arith,
        faithful v text,
        get-value k store,
        get-value k next,
        value-upsert now key k text store,
      )
    ]

    delete_key-get :
        (key k : Bytes) (before : Option V) (store : KvStore)
        → get to_string from_str k store ≡ ok before
        → get to_string from_str k (delete_key key store)
          ≡ ok (if bytes_beq key k then none else before)
    unfolding get delete_key
    delete_key-get key k before store g = ground (
      arith,
      select-delete_where (λ j. bytes_beq j key) k store,
      bytes_beq_iff key k,
      bytes_beq_iff k key,
    )

    run-latest :
        (k : Bytes) (ops : List Op) (before : Option V) (store final : KvStore)
        → get to_string from_str k store ≡ ok before
        → run ops store ≡ ok final
        → get to_string from_str k final ≡ ok (latest k ops before)
    unfolding run latest apply
    run-latest k [] before store final g r = ground arith
    run-latest k (put now key v ∷ ops) before store final g r =
        elim (KvResult-cases (set to_string from_str now key v store)) [
          | inl h ↦ ground arith
          | inr (next, h) ↦
              run-latest k ops _ next final (set-get now key k v before store next g h)
                (ground arith)
        ]
    run-latest k (remove key ∷ ops) before store final g r =
        run-latest k ops _ (delete_key key store) final (delete_key-get key k before store g) r

    -- Where every JSON text that is written reads back as its value, then after any history of
    -- `set` and `delete` on an empty store that succeeds, `get` of a key succeeds and answers
    -- the value that was set last for it, or none where the key was never set or was deleted
    -- since.
    pub run-get :
        (k : Bytes) (ops : List Op) (store : KvStore)
        → run ops [] ≡ ok store
        → get to_string from_str k store ≡ ok (latest k ops none)
    unfolding get select
    run-get k ops store r = run-latest k ops none [] store refl r
