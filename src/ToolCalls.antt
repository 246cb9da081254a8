-- ===== src/ToolCalls.antt =====
-- sdk/rust/src/toolcalls.rs: the log of tool calls. A statement of SQL succeeds, the clock is an
-- argument, and an id is the positive number that AUTOINCREMENT gives. JSON values and their text
-- are parameters, as the source leaves them to serde_json.
pub mod Life
pub mod Counts
use airyfs.Prelude.{
  ℕ, suc, ◌+◌, ◌-◌, ◌*◌, ◌%◌, ◌^◌, ◌&&◌, Bool, true, false, Option, none, some, List, [], ◌∷◌, ltb,
  nat_beq, nat_eq, bytes_beq, if◌then◌else◌,
}
use airyfs.Prelude.Int.{ℤ, pos, negsuc}
use airyfs.Prelude.Table.{select, update, count_where}
use airyfs.Db.{Bytes}
use airyfs.PathName.{is_empty}

-- `as_i64`: what 64 bits keep of a number
unfoldable pub as_i64 : ℤ → ℤ
as_i64 (pos n) = let m = n % 2 ^ 64 in if ltb m (2 ^ 63) then pos m else negsuc (2 ^ 64 - 1 - m)
as_i64 (negsuc n) = let m = n % 2 ^ 64 in if ltb m (2 ^ 63) then negsuc m else pos (2 ^ 64 - 1 - m)

-- a difference of two natural numbers
unfoldable pub difference : ℕ → ℕ → ℤ
difference a b = if ltb a b then negsuc (b - a - 1) else pos (a - b)

infixl 20 ◌-ℤ◌
unfoldable pub ◌-ℤ◌ : ℤ → ℤ → ℤ
◌-ℤ◌ (pos a) (pos b) = difference a b
◌-ℤ◌ (pos a) (negsuc b) = pos (a + b + 1)
◌-ℤ◌ (negsuc a) (pos b) = negsuc (a + b)
◌-ℤ◌ (negsuc a) (negsuc b) = difference b a

unfoldable pub thousand_times : ℤ → ℤ
thousand_times (pos a) = pos (a * 1000)
thousand_times (negsuc a) = negsuc ((a + 1) * 1000 - 1)

-- `(completed_at - started_at) * 1000`, which wraps
unfoldable pub duration : ℤ → ℤ → ℤ
duration completed started = as_i64 (thousand_times (as_i64 (completed -ℤ started)))

pub data ToolCallStatus : Type 0 where
  pending : ToolCallStatus
  success : ToolCallStatus
  error : ToolCallStatus

abbrev pub pending_text : Bytes
pending_text = b'p' ∷ b'e' ∷ b'n' ∷ b'd' ∷ b'i' ∷ b'n' ∷ b'g' ∷ []

abbrev pub success_text : Bytes
success_text = b's' ∷ b'u' ∷ b'c' ∷ b'c' ∷ b'e' ∷ b's' ∷ b's' ∷ []

abbrev pub error_text : Bytes
error_text = b'e' ∷ b'r' ∷ b'r' ∷ b'o' ∷ b'r' ∷ []

-- `Display`
unfoldable pub display : ToolCallStatus → Bytes
display pending = pending_text
display success = success_text
display error = error_text

-- `From<&str>`
unfoldable pub status_from : Bytes → ToolCallStatus
status_from s =
    if bytes_beq s success_text then success else if bytes_beq s error_text then error else pending

-- a row of tool_calls; a NULL is none
pub record Row : Type 0 where
  pub name : Bytes
  pub parameters : Option Bytes
  pub result : Option Bytes
  pub error_message : Option Bytes
  pub status : Bytes
  pub started_at : ℤ
  pub completed_at : Option ℤ
  pub duration_ms : Option ℤ

-- the rows by id, and the last id that AUTOINCREMENT gave
pub record Log : Type 0 where
  pub rows : List (ℕ × Row)
  pub last_id : ℕ

pub data LogError : Type 0 where
  tool_call_not_found : LogError
  json_error : LogError

pub data LogResult (A : Type 0) : Type 0 where
  ok : A → LogResult A
  err : LogError → LogResult A

abbrev pub insert : Row → Log → ℕ × Log
insert row log =
    let id = suc log.last_id in (id, record { rows = (id, row) ∷ log.rows; last_id = id })

abbrev pub or_empty : Option Bytes → Bytes
or_empty none = []
or_empty (some s) = s

-- the part of `success` and `error` after the text is there: no look at the old status
unfoldable pub complete : ℕ → ℤ → (ℤ → Row → Row) → Log → LogResult Log
complete id completed change log = elim (select id log.rows) [
  | none ↦ err tool_call_not_found
  | some row ↦
      ok (record log { rows = update id (change (duration completed row.started_at)) log.rows })
]

module _ {Json : Type 0} (to_string : Json → Option Bytes) (from_str : Bytes → Option Json) where
  pub record ToolCall : Type 0 where
    pub id : ℕ
    pub call_name : Bytes
    pub call_parameters : Option Json
    pub call_result : Option Json
    pub call_error : Option Bytes
    pub call_status : ToolCallStatus
    pub call_started_at : ℤ
    pub call_completed_at : Option ℤ
    pub call_duration_ms : Option ℤ

  -- `value.map(|v| to_string(&v)).transpose()?`, and the empty text for no value
  unfoldable pub serialized : Option Json → LogResult Bytes
  serialized none = ok []
  serialized (some v) = elim (to_string v) [ some s ↦ ok s | none ↦ err json_error ]

  unfoldable pub start : ℤ → Bytes → Option Json → Log → LogResult (ℕ × Log)
  start now name parameters log = elim (serialized parameters) [
    | err e ↦ err e
    | ok text ↦ ok (
        insert
          (record {
            name = name;
            parameters = some text;
            result = none;
            error_message = none;
            status = pending_text;
            started_at = now;
            completed_at = none;
            duration_ms = none;
          })
          log)
  ]

  unfoldable pub mark_success : ℤ → ℕ → Option Json → Log → LogResult Log
  mark_success now id result log = elim (serialized result) [
    | err e ↦ err e
    | ok text ↦
        complete id now
          (λ ms row. record row {
            result = some text;
            status = success_text;
            completed_at = some now;
            duration_ms = some ms;
          })
          log
  ]

  unfoldable pub mark_error : ℤ → ℕ → Bytes → Log → LogResult Log
  mark_error now id message log =
      complete id now
        (λ ms row. record row {
          error_message = some message;
          status = error_text;
          completed_at = some now;
          duration_ms = some ms;
        })
        log

  abbrev pub final_status : Option Bytes → Bytes
  final_status none = success_text
  final_status (some message) = error_text

  unfoldable pub record_call :
      Bytes → ℤ → ℤ → Option Json → Option Json → Option Bytes → Log → LogResult (ℕ × Log)
  record_call name started completed parameters result message log = elim (serialized parameters) [
    | err e ↦ err e
    | ok parameters_text ↦ elim (serialized result) [
      | err e ↦ err e
      | ok result_text ↦ ok (
          insert
            (record {
              name = name;
              parameters = some parameters_text;
              result = some result_text;
              error_message = some (or_empty message);
              status = final_status message;
              started_at = started;
              completed_at = some completed;
              duration_ms = some (duration completed started);
            })
            log)
    ]
  ]

  -- a text that is empty or no JSON reads as no value
  unfoldable pub read_json : Option Bytes → Option Json
  read_json none = none
  read_json (some s) = if is_empty s then none else from_str s

  abbrev pub read_text : Option Bytes → Option Bytes
  read_text none = none
  read_text (some s) = if is_empty s then none else some s

  unfoldable pub row_to_tool_call : ℕ → Row → ToolCall
  row_to_tool_call n row = record {
    id = n;
    call_name = row.name;
    call_parameters = read_json row.parameters;
    call_result = read_json row.result;
    call_error = read_text row.error_message;
    call_status = status_from row.status;
    call_started_at = row.started_at;
    call_completed_at = row.completed_at;
    call_duration_ms = row.duration_ms;
  }

  unfoldable pub get : ℕ → Log → Option ToolCall
  get n log = elim (select n log.rows) [ none ↦ none | some row ↦ some (row_to_tool_call n row) ]

-- `ToolCallStats`, less the average, which is a floating-point number
pub record ToolCallStats : Type 0 where
  pub tool : Bytes
  pub total_calls : ℕ
  pub successful : ℕ
  pub failed : ℕ

abbrev pub named : Bytes → ℕ → Row → Bool
named name n row = bytes_beq row.name name

abbrev pub ended : Bytes → Bytes → ℕ → Row → Bool
ended name status n row = bytes_beq row.name name && bytes_beq row.status status

-- GROUP BY gives no row where no call has the name
unfoldable pub stats_for : Bytes → Log → Option ToolCallStats
stats_for name log =
    let total = count_where (named name) log.rows in
    if nat_beq total 0
    then none
    else some (record {
      tool = name;
      total_calls = total;
      successful = count_where (ended name success_text) log.rows;
      failed = count_where (ended name error_text) log.rows;
    })
