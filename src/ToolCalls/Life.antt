-- ===== src/ToolCalls/Life.antt =====
-- From the start of a tool call to its end, and the call that is recorded at once.
use airyfs.Prelude.{
  ℕ, suc, ◌≡◌, ◌≢◌, ◌⊎◌, refl, sym, ◌∙◌, true, false, Option, none, some, [], ◌∷◌, nat_beq, nat_eq,
  if◌then◌else◌, inl, inr, arith,
}
use airyfs.Prelude.Int.{ℤ}
use airyfs.Prelude.Table.{select, update, select-update}
use airyfs.Db.{Bytes}
use airyfs.PathName.{is_empty}
use airyfs.ToolCalls.{
  ToolCallStatus, pending, success, error, Row, Log, LogError, LogResult, ok, err, insert, complete,
  duration, serialized, start, mark_success, mark_error, record_call, read_json, row_to_tool_call,
  get, status_from, display, success_text, pending_text,
}

infixl 5 ◌>>=◌
abbrev pub ◌>>=◌ : {A B : Type 0} → LogResult A → (A → LogResult B) → LogResult B
ok a >>= rest = rest a
err e >>= rest = err e

status_from-display : (s : ToolCallStatus) → status_from (display s) ≡ s
unfolding status_from display
status_from-display pending = refl
status_from-display success = refl
status_from-display error = refl

pub LogResult-cases :
    {A : Type 0} (r : LogResult A) → ((e : LogError) × (r ≡ err e)) ⊎ ((a : A) × (r ≡ ok a))
LogResult-cases (err e) = inl (e, refl)
LogResult-cases (ok a) = inr (a, refl)

module _ {Json : Type 0} (to_string : Json → Option Bytes) (from_str : Bytes → Option Json) where
  -- the value is written to a text that is not empty, and read back from it
  abbrev pub IsFaithful : Option Json → Type 0
  IsFaithful none = Unit
  IsFaithful (some v) =
      (s : Bytes) × (to_string v ≡ some s) × (is_empty s ≡ false) × (from_str s ≡ some v)

  -- both fail in the same way, or give the same id and logs that read the same
  abbrev pub SameCalls : LogResult (ℕ × Log) → LogResult (ℕ × Log) → Type 0
  SameCalls (err e) (err f) = e ≡ f
  SameCalls (ok a) (ok b) =
      (a.0 ≡ b.0) × ((n : ℕ) → get to_string from_str n a.1 ≡ get to_string from_str n b.1)
  SameCalls _ _ = ⊥

  abbrev pub start_success : Bytes → ℤ → ℤ → Option Json → Option Json → Log → LogResult (ℕ × Log)
  start_success name started completed parameters result log =
      start to_string from_str started name parameters log >>= λ called.
      mark_success to_string from_str completed called.0 result called.1 >>= λ done.
      ok (called.0, done)

  abbrev pub start_error : Bytes → ℤ → ℤ → Option Json → Bytes → Log → LogResult (ℕ × Log)
  start_error name started completed parameters message log =
      start to_string from_str started name parameters log >>= λ called.
      mark_error to_string from_str completed called.0 message called.1 >>= λ done.
      ok (called.0, done)

  get-insert :
      (n : ℕ) (row : Row) (log : Log)
      → get to_string from_str n (insert row log).1 ≡ (
          if nat_beq (suc log.last_id) n
          then some (row_to_tool_call to_string from_str n row)
          else get to_string from_str n log)
  unfolding get select
  get-insert n row log = ground arith

  get-update :
      (n : ℕ) (change : Row → Row) (row : Row) (log : Log)
      → get to_string from_str n (record {
        rows = update (suc log.last_id) change ((suc log.last_id, row) ∷ log.rows);
        last_id = suc log.last_id;
      })
        ≡ (if nat_beq (suc log.last_id) n
            then some (row_to_tool_call to_string from_str n (change row))
            else get to_string from_str n log)
  unfolding get select update
  get-update n change row log = ground (arith, select-update (suc log.last_id) n change log.rows)

  -- `record` of a call without an error fails exactly as `start` followed by `success` does, or
  -- gives the same id, and then `get` answers the same for every id.
  pub record_call-start_success :
      (name : Bytes) (started completed : ℤ) (parameters result : Option Json) (log : Log)
      → SameCalls
          (record_call to_string from_str name started completed parameters result none log)
          (start_success name started completed parameters result log)
  unfolding record_call start mark_success complete select row_to_tool_call read_json status_from
  record_call-start_success name started completed parameters result log =
      let self : nat_beq (suc log.last_id) (suc log.last_id) ≡ true = ground arith in
      elim (LogResult-cases (serialized to_string from_str parameters)) [
        | inl (e, h) ↦ rw (h, SameCalls, record_call, start) refl
        | inr (p, h) ↦ elim (LogResult-cases (serialized to_string from_str result)) [
          | inl (e, k) ↦
              rw (h, SameCalls, record_call, start) (rw (k, SameCalls, mark_success) refl)
          | inr (r, k) ↦
              rw (h, SameCalls, record_call, start)
                (rw (k, SameCalls, mark_success)
                  (rw (self, SameCalls)
                    (refl, λ n. get-insert n _ log ∙ sym (get-update n _ _ log))))
        ]
      ]

  record_call-start_error :
      (name : Bytes) (started completed : ℤ) (parameters : Option Json) (message : Bytes)
      (log : Log)
      → SameCalls
          (record_call to_string from_str name started completed parameters none (some message) log)
          (start_error name started completed parameters message log)
  unfolding record_call start mark_error complete select row_to_tool_call read_json status_from
      serialized
  record_call-start_error name started completed parameters message log =
      let self : nat_beq (suc log.last_id) (suc log.last_id) ≡ true = ground arith in
      elim (LogResult-cases (serialized to_string from_str parameters)) [
        | inl (e, h) ↦ rw (h, SameCalls, record_call, start) refl
        | inr (p, h) ↦
            rw (h, SameCalls, record_call, start)
              (rw (self, SameCalls) (refl, λ n. get-insert n _ log ∙ sym (get-update n _ _ log)))
      ]

  serialized-read_json :
      (v : Option Json)
      → IsFaithful v
      → (s : Bytes) × (serialized to_string from_str v ≡ ok s)
        × (read_json to_string from_str (some s) ≡ v)
  unfolding serialized read_json
  serialized-read_json none h = ([], refl, refl)
  serialized-read_json (some v) (s, written, full, read) =
      (s, rw (written, serialized), rw (full, read_json) read)

  -- Where parameters and result are absent, or written to a text that is not empty and reads
  -- back as the value, `start` and then `success` succeed, `get` of the id answers the call
  -- with its name, parameters, result, times, duration and status success and without an error,
  -- and every other id answers as before.
  pub start-mark_success-get :
      (name : Bytes) (started completed : ℤ) (parameters result : Option Json) (log : Log)
      → IsFaithful parameters
      → IsFaithful result
      → (done : ℕ × Log) × (start_success name started completed parameters result log ≡ ok done)
        × (get to_string from_str done.0 done.1
            ≡ some (record {
              id = done.0;
              call_name = name;
              call_parameters = parameters;
              call_result = result;
              call_error = none;
              call_status = success;
              call_started_at = started;
              call_completed_at = some completed;
              call_duration_ms = some (duration completed started);
            }))
        × ((n : ℕ) → n ≢ done.0 → get to_string from_str n done.1 ≡ get to_string from_str n log)
  unfolding start mark_success complete select row_to_tool_call status_from
  start-mark_success-get name started completed parameters result log p r =
      let self : nat_beq (suc log.last_id) (suc log.last_id) ≡ true = ground arith in
      let a = serialized-read_json parameters p in
      let b = serialized-read_json result r in
      let change : Row → Row = λ row. record row {
        result = some b.0;
        status = success_text;
        completed_at = some completed;
        duration_ms = some (duration completed started);
      } in
      let called : Row = record {
        name = name;
        parameters = some a.0;
        result = none;
        error_message = none;
        status = pending_text;
        started_at = started;
        completed_at = none;
        duration_ms = none;
      } in
      (
        (
          suc log.last_id,
          record {
            rows = update (suc log.last_id) change ((suc log.last_id, called) ∷ log.rows);
            last_id = suc log.last_id;
          },
        ),
        rw (a.1, start) (rw (b.1, mark_success) (rw (self, complete) refl)),
        get-update (suc log.last_id) change called log ∙ rw (self, a.2, b.2) refl,
        λ n other. get-update n change called log ∙ ground arith,
      )
