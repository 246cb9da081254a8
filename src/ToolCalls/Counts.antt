-- ===== src/ToolCalls/Counts.antt =====
-- The numbers of calls that `stats_for` gives, before and after a call is recorded.
use airyfs.Prelude.{
  ℕ, ◌<◌, suc, ◌+◌, ◌≤◌, ◌≡◌, ◌≢◌, refl, sym, ap, ◌∙◌, inl, inr, Option, none, some, List, [], ◌∷◌,
  bytes_beq_iff, nat_eq, arith,
}
use airyfs.Prelude.Int.{ℤ}
use airyfs.Prelude.Table.{count_where}
use airyfs.Db.{Bytes}
use airyfs.ToolCalls.Life.{LogResult-cases}
use airyfs.ToolCalls.{
  Row, Log, LogResult, ok, err, named, ended, success_text, error_text, final_status, serialized,
  record_call, duration, or_empty, ToolCallStats, stats_for,
}

ended-named :
    (name : Bytes) (rows : List (ℕ × Row))
    → count_where (ended name success_text) rows + count_where (ended name error_text) rows
      ≤ count_where (named name) rows
unfolding count_where
ended-named name [] = omega arith
ended-named name ((n, row) ∷ rows) = ground (
  arith,
  ended-named name rows,
  bytes_beq_iff row.status success_text,
  bytes_beq_iff row.status error_text,
)

-- all calls, those that succeeded and those that failed, 0 where there is no statistic
abbrev pub counts : Option ToolCallStats → ℕ × ℕ × ℕ
counts none = (0, 0, 0)
counts (some s) = (s.total_calls, s.successful, s.failed)

-- with one more call, which failed if it has a message
abbrev pub with_call : Option Bytes → ℕ × ℕ × ℕ → ℕ × ℕ × ℕ
with_call none (total, successful, failed) = (suc total, suc successful, failed)
with_call (some message) (total, successful, failed) = (suc total, successful, suc failed)

counts-stats_for :
    (name : Bytes) (log : Log)
    → counts (stats_for name log) ≡ (
      count_where (named name) log.rows,
      count_where (ended name success_text) log.rows,
      count_where (ended name error_text) log.rows,
    )
unfolding stats_for
counts-stats_for name log = ground (arith, ended-named name log.rows)

abbrev tallies : Bytes → List (ℕ × Row) → ℕ × ℕ × ℕ
tallies name rows = (
  count_where (named name) rows,
  count_where (ended name success_text) rows,
  count_where (ended name error_text) rows,
)

-- the statistic with these numbers
abbrev pub stats_of : Bytes → ℕ × ℕ × ℕ → ToolCallStats
stats_of name k = record { tool = name; total_calls = k.0; successful = k.1; failed = k.2 }

stats_for-known :
    (name : Bytes) (log : Log) (k : ℕ × ℕ × ℕ)
    → tallies name log.rows ≡ k
    → 0 < k.0
    → stats_for name log ≡ some (stats_of name k)
unfolding stats_for
stats_for-known name log k same some_calls =
    let total : count_where (named name) log.rows ≡ k.0 = ap (λ t. t.0) same in
    let good : count_where (ended name success_text) log.rows ≡ k.1 = ap (λ t. t.1) same in
    let bad : count_where (ended name error_text) log.rows ≡ k.2 = ap (λ t. t.2) same in
    ground arith

stats_for-same :
    (name : Bytes) (a b : Log)
    → tallies name a.rows ≡ tallies name b.rows
    → stats_for name a ≡ stats_for name b
unfolding stats_for
stats_for-same name a b same =
    let total : count_where (named name) a.rows ≡ count_where (named name) b.rows =
      ap (λ t. t.0) same in
    let good : count_where (ended name success_text) a.rows
        ≡ count_where (ended name success_text) b.rows =
      ap (λ t. t.1) same in
    let bad : count_where (ended name error_text) a.rows
        ≡ count_where (ended name error_text) b.rows =
      ap (λ t. t.2) same in
    rw (total, good, bad) refl

with_call-some : (message : Option Bytes) (k : ℕ × ℕ × ℕ) → 0 < (with_call message k).0
with_call-some none k = omega arith
with_call-some (some m) k = omega arith

-- a row with a name counts for this name alone
tallies-success :
    (name : Bytes) (n : ℕ) (row : Row) (rows : List (ℕ × Row))
    → row.name ≡ name
    → row.status ≡ success_text
    → tallies name ((n, row) ∷ rows) ≡ with_call none (tallies name rows)
unfolding count_where
tallies-success name n row rows called success =
    rw (called, success) ground (arith, bytes_beq_iff name name)

tallies-error :
    (name m : Bytes) (n : ℕ) (row : Row) (rows : List (ℕ × Row))
    → row.name ≡ name
    → row.status ≡ error_text
    → tallies name ((n, row) ∷ rows) ≡ with_call (some m) (tallies name rows)
unfolding count_where
tallies-error name m n row rows called error =
    rw (called, error) ground (arith, bytes_beq_iff name name)

tallies-other :
    (other : Bytes) (n : ℕ) (row : Row) (rows : List (ℕ × Row))
    → other ≢ row.name
    → tallies other ((n, row) ∷ rows) ≡ tallies other rows
unfolding count_where
tallies-other other n row rows different = ground (arith, bytes_beq_iff row.name other)

abbrev rows_of : LogResult (ℕ × Log) → List (ℕ × Row)
rows_of (err e) = []
rows_of (ok (n, log)) = log.rows

module _ {Json : Type 0} (to_string : Json → Option Bytes) (from_str : Bytes → Option Json) where
  recorded_row :
      (name : Bytes) (started completed : ℤ) (parameters result : Option Json)
      (message : Option Bytes) (log log' : Log) (id : ℕ)
      → record_call to_string from_str name started completed parameters result message log
        ≡ ok (id, log')
      → (row : Row) × (row.name ≡ name)
        × (row.status ≡ final_status to_string from_str message)
        × (log'.rows ≡ (suc log.last_id, row) ∷ log.rows)
  unfolding record_call
  recorded_row name started completed parameters result message log log' id h =
      elim (LogResult-cases (serialized to_string from_str parameters)) [
        | inl (e, failed) ↦ absurd (ground arith)
        | inr (p, written) ↦ elim (LogResult-cases (serialized to_string from_str result)) [
          | inl (e, failed) ↦ absurd (ground arith)
          | inr (r, shown) ↦ (
            record {
              name = name;
              parameters = some p;
              result = some r;
              error_message = some (or_empty message);
              status = final_status to_string from_str message;
              started_at = started;
              completed_at = some completed;
              duration_ms = some (duration completed started);
            },
            refl,
            refl,
            sym (ap rows_of h) ∙ ground arith,
          )
        ]
      ]

  tallies-call :
      (name : Bytes) (n : ℕ) (row : Row) (rows : List (ℕ × Row)) (message : Option Bytes)
      → row.name ≡ name
      → row.status ≡ final_status to_string from_str message
      → tallies name ((n, row) ∷ rows) ≡ with_call message (tallies name rows)
  tallies-call name n row rows none called ended_so =
      tallies-success name n row rows called ended_so
  tallies-call name n row rows (some m) called ended_so =
      tallies-error name m n row rows called ended_so

  -- Where `record` of a call returns, `stats_for` its name answers with that name and one more
  -- call than before it, one more that succeeded if the call has no error message or one more
  -- that failed if it has one, the other number unchanged, where no answer before it stands for
  -- none of each; the answer for every other name is unchanged.
  pub record_call-stats_for :
      (name : Bytes) (started completed : ℤ) (parameters result : Option Json)
      (message : Option Bytes) (log log' : Log) (id : ℕ)
      → record_call to_string from_str name started completed parameters result message log
        ≡ ok (id, log')
      → (stats_for name log'
          ≡ some (stats_of name (with_call message (counts (stats_for name log)))))
        × ((other : Bytes) → other ≢ name → stats_for other log' ≡ stats_for other log)
  record_call-stats_for name started completed parameters result message log log' id h =
      let (row, called, ended_so, grown) =
        recorded_row name started completed parameters result message log log' id h in
      let before : ℕ × ℕ × ℕ = counts (stats_for name log) in
      (
        stats_for-known name log' (with_call message before)
            (ap (tallies name) grown
              ∙ tallies-call name (suc log.last_id) row log.rows message called ended_so
              ∙ ap (with_call message) (sym (counts-stats_for name log)))
            (with_call-some message before),
        λ other different. stats_for-same other log' log (
            ap (tallies other) grown
            ∙ tallies-other other (suc log.last_id) row log.rows
                (λ same. different (same ∙ called))),
      )
