-- ===== src/Tests/Stores.antt =====
-- The tool call log and the key-value store at concrete values. A value is bytes here, and its text
-- is the bytes behind a quote.
use airyfs.Prelude.Table.{delete_where, count_where, select, update}
use airyfs.Prelude.{ℕ, ◌≡◌, ◌≢◌, refl, Option, none, some, List, [], ◌∷◌, arith}
use airyfs.Prelude.Int.{pos}
use airyfs.Db.{Bytes}
use airyfs.ToolCalls
use airyfs.ToolCalls.{Row, Log, ToolCallStats, start, get, record_call, stats_for, mark_success}
use airyfs.ToolCalls.Life.{
  SameCalls, start_success, record_call-start_success, start-mark_success-get,
}
use airyfs.ToolCalls.Counts.{stats_of, counts, with_call, record_call-stats_for}
use airyfs.KvStore
use airyfs.KvStore.{KvStore}
use airyfs.KvStore.History.{Op, put, remove, run, latest, run-get, apply}

abbrev quoted : Bytes → Option Bytes
quoted v = some (b'q' ∷ v)

abbrev unquoted : Bytes → Option Bytes
unquoted [] = none
unquoted (c ∷ v) = some v

quoted-unquoted : (v s : Bytes) → quoted v ≡ some s → unquoted s ≡ some v
quoted-unquoted v [] h = ground arith
quoted-unquoted v (c ∷ s) h = ground arith

abbrev tool : Bytes
tool = b't' ∷ []

abbrev answer : Bytes
answer = b'4' ∷ b'2' ∷ []

abbrev no_calls : Log
no_calls = record { rows = []; last_id = 0 }

record_call-start_success_example :
    SameCalls quoted unquoted
      (record_call quoted unquoted tool (pos 5) (pos 7) none (some answer) none no_calls)
      (start_success quoted unquoted tool (pos 5) (pos 7) none (some answer) no_calls)
record_call-start_success_example =
    record_call-start_success quoted unquoted tool (pos 5) (pos 7) none (some answer) no_calls

start-mark_success-get_example :
    (done : ℕ × Log) × (start_success quoted unquoted tool
        (pos 5)
        (pos 7)
        none
        (some answer)
        no_calls
      ≡ ToolCalls.ok done)
    × (get quoted unquoted done.0 done.1
        ≡ some (record {
          id = done.0;
          call_name = tool;
          call_parameters = none;
          call_result = some answer;
          call_error = none;
          call_status = ToolCalls.success;
          call_started_at = pos 5;
          call_completed_at = some (pos 7);
          call_duration_ms = some (ToolCalls.duration (pos 7) (pos 5));
        }))
    × ((n : ℕ) → n ≢ done.0 → get quoted unquoted n done.1 ≡ get quoted unquoted n no_calls)
start-mark_success-get_example =
    start-mark_success-get quoted unquoted tool (pos 5) (pos 7) none (some answer) no_calls tt
      (b'q' ∷ answer, refl, refl, refl)

two_seconds : ToolCalls.duration (pos 7) (pos 5) ≡ pos 2000
unfolding ToolCalls.duration ToolCalls.as_i64 ToolCalls.thousand_times ToolCalls.◌-ℤ◌
    ToolCalls.difference
two_seconds = refl

-- one call that has ended, and one that has not
abbrev two_calls : Log
two_calls = record {
  rows =
      (
        2,
        record {
          name = tool;
          parameters = some [];
          result = none;
          error_message = none;
          status = ToolCalls.pending_text;
          started_at = pos 9;
          completed_at = none;
          duration_ms = none;
        },
      )
      ∷ (
        1,
        record {
          name = tool;
          parameters = some [];
          result = some [];
          error_message = some [];
          status = ToolCalls.success_text;
          started_at = pos 5;
          completed_at = some (pos 7);
          duration_ms = some (pos 2000);
        },
      )
      ∷ [];
  last_id = 2;
}

abbrev two_stats : ToolCallStats
two_stats = record { tool = tool; total_calls = 2; successful = 1; failed = 0 }

-- after a third call, which fails
abbrev third_call : Row
third_call = record {
  name = tool;
  parameters = some [];
  result = some [];
  error_message = some answer;
  status = ToolCalls.error_text;
  started_at = pos 5;
  completed_at = some (pos 7);
  duration_ms = some (ToolCalls.duration (pos 7) (pos 5));
}

abbrev three_calls : Log
three_calls = record { rows = (3, third_call) ∷ two_calls.rows; last_id = 3 }

third_recorded :
    record_call quoted unquoted tool (pos 5) (pos 7) none none (some answer) two_calls
    ≡ ToolCalls.ok (3, three_calls)
unfolding record_call ToolCalls.serialized
third_recorded = refl

record_call-stats_for_example :
    (stats_for tool three_calls
      ≡ some (stats_of tool (with_call (some answer) (counts (stats_for tool two_calls)))))
    × ((other : Bytes) → other ≢ tool → stats_for other three_calls ≡ stats_for other two_calls)
record_call-stats_for_example =
    record_call-stats_for quoted unquoted tool (pos 5) (pos 7) none none (some answer) two_calls
      three_calls 3 third_recorded

counted : stats_for tool two_calls ≡ some two_stats
unfolding stats_for count_where
counted = refl

-- a is put twice, b is put and removed
abbrev history : List (Op quoted unquoted)
history =
    put 1 (b'a' ∷ []) tool
    ∷ put 2 (b'b' ∷ []) tool
    ∷ put 3 (b'a' ∷ []) answer
    ∷ remove (b'b' ∷ [])
    ∷ []

abbrev store : KvStore
store = (b'a' ∷ [], record { value = b'q' ∷ answer; created_at = 1; updated_at = 3 }) ∷ []

run-get_example : KvStore.get quoted unquoted (b'a' ∷ []) store ≡ KvStore.ok (some answer)
unfolding run apply KvStore.set KvStore.delete_key delete_where KvStore.upsert select update latest
run-get_example = run-get quoted unquoted quoted-unquoted (b'a' ∷ []) history store refl
