-- ===== src/Tests/Batches.antt =====
-- Concrete batches, captures, names, edits and leases.
use assistant_agent.Base.{
  ℕ, zero, suc, ◌≡◌, ◌↔◌, refl, ap, String, Bool, true, false, none, some, List, [], ◌∷◌, ◌++◌,
  length, map, concat, arith, ◌==◌, eq_iff, Bool-cases, inl, inr,
}
use assistant_agent.Base.Result.{ok, err, value_error}
use assistant_agent.ToolResult.{Text, codes, encode_result, decode_result, post_init}
use assistant_agent.Run.State.{RunPhase, ToolCallStatus, ToolCall, ToolCallState, Message, RunState}
use assistant_agent.Run.Consistency.{calls_fit}
use assistant_agent.Run.Coordinator.{Coordinator, planned_call, call}
use assistant_agent.Run.Normalize.{Naming, used_ids, normalize_tool_calls}
use assistant_agent.Run.Normalize.Fresh.{Injective, Renamed, normalize_tool_calls-Renamed}
use assistant_agent.Run.Normalize.Planned.{MakesIds, normalize_tool_calls-calls_fit}
use assistant_agent.Artifact.{utf8_size, DraftStore, Writer, write}
use assistant_agent.Artifact.Chunks.{Kept, write-Kept}
use assistant_agent.Control.{ControlState}
use assistant_agent.Batch.{Surroundings, Batch, result_for, run_calls, execute_tool_batch}
use assistant_agent.Batch.Order.{Grows, execute_tool_batch-Grows}
use assistant_agent.Batch.Replay.{run_calls-HasResults, execute_tool_batch-resolved}
use assistant_agent.Edit.{Edit, Edited, FilePort, multi_edit}
use assistant_agent.Edit.Atomic.{AllOrNothing, multi_edit-AllOrNothing}
use assistant_agent.Lease.{Stage, Machine, start, enter, lock_file, Step, Reachable}
use assistant_agent.Lease.Exclusion.{Spec, Step-Spec}
use assistant_agent.Tests.Samples.{planned_run, coordinator_of, run_at, read_call, file_text}
use assistant_agent.Tests.Contexts.{short_talk}

abbrev strokes : ℕ → String
strokes zero = String.[]
strokes (suc n) = String.◌∷◌ "-" (strokes n)

abbrev naming : Naming
naming = record {
  strip = λ id. id;
  stable_call_id = λ run_id iteration index. "call_1";
  suffixed = λ base n. strokes (suc n);
}

length-strokes : (n : ℕ) → length (codes (strokes n)) ≡ n
length-strokes zero = refl
length-strokes (suc n) = ap suc (length-strokes n)

naming-Injective : Injective naming
naming-Injective base n m e =
    omega (arith, length-strokes (suc n), length-strokes (suc m), ap (λ s. length (codes s)) e)

abbrev unnamed : ToolCall
unnamed = record { id = ""; name = "read_file"; arguments = codes "{}" }

normalize_tool_calls-Renamed_example :
    Renamed
      (used_ids planned_run.state.messages)
      (unnamed ∷ unnamed ∷ [])
      (normalize_tool_calls naming planned_run.state (unnamed ∷ unnamed ∷ []))
normalize_tool_calls-Renamed_example =
    normalize_tool_calls-Renamed naming planned_run.state (unnamed ∷ unnamed ∷ []) naming-Injective

strokes-nonempty : (n : ℕ) → (strokes (suc n) == "") ≡ false
strokes-nonempty n = elim (Bool-cases (strokes (suc n) == "")) [
  | inl e ↦ ground (
    arith,
    length-strokes (suc n),
    ap (λ s. length (codes s)) ((eq_iff (strokes (suc n)) "").0 e),
  )
  | inr e ↦ e
]

naming-MakesIds : MakesIds naming
naming-MakesIds = (λ base n. strokes-nonempty n, λ run_id iteration index. refl)

normalize_tool_calls-calls_fit_example :
    (out : List ToolCall) × (normalize_tool_calls naming planned_run.state (unnamed ∷ unnamed ∷ [])
      ≡ some out)
    × (calls_fit
          (planned_run.state.messages ++ Message.assistant [] out ∷ [])
          (map planned_call out)
        ≡ true)
normalize_tool_calls-calls_fit_example =
    normalize_tool_calls-calls_fit naming planned_run.state (unnamed ∷ unnamed ∷ []) []
      naming-Injective naming-MakesIds refl (λ id h. ground (arith, h))

abbrev drafts : DraftStore (List Text)
drafts = record {
  reset_text_draft = λ s. (ok tt, []);
  append_text_draft = λ i chunk s. (ok (utf8_size (concat (s ++ chunk ∷ []))), s ++ chunk ∷ []);
  read_text_draft = λ s. (ok (concat s), s);
  finalize_text_draft = λ s. (ok tt, s);
}

abbrev empty_writer : Writer (List Text) Bool
empty_writer = record {
  store = [];
  buffer = [];
  chunk_index = 0;
  size_bytes = 0;
  validation_result = none;
}

write-Kept_example :
    Kept drafts 7 (λ s. s) ([] ++ codes "文件正文") (write drafts 7 (codes "文件正文") empty_writer)
unfolding utf8_size
write-Kept_example =
    write-Kept drafts 7 (λ s. s) (codes "文件正文") empty_writer [] (λ chunk s. (refl, refl))
      (omega arith) (record { whole = refl; index = refl; size = refl; bounded = refl })

abbrev quiet : ControlState → Surroundings (Unit {0})
quiet control = record {
  control_state = λ w. (control, w);
  ensure_budget = λ reason x. (false, x.0, x.1);
  execute = λ tool x. (ok file_text, x.0, x.1);
}

abbrev read_again : ToolCall
read_again = record { id = "call_1"; name = "read_file"; arguments = codes "{}" }

abbrev answered : ToolCallState
answered = record (read_call ToolCallStatus.completed) { result = some (encode_result file_text) }

abbrev answered_run : RunState
answered_run = record (run_at RunPhase.tools_pending ToolCallStatus.completed) {
  tool_calls = answered ∷ [];
}

abbrev batch_of : Coordinator → Batch (Unit {0})
batch_of c = record { coordinator = c; conversation = short_talk; world = tt }

execute_tool_batch-Grows_example :
    Grows short_talk.messages
      (read_again ∷ [])
      (execute_tool_batch (quiet ControlState.running) (read_again ∷ []) (batch_of planned_run)).1
execute_tool_batch-Grows_example =
    execute_tool_batch-Grows (quiet ControlState.running) (read_again ∷ []) (batch_of planned_run)

run_calls-HasResults_example :
    run_calls
      (quiet ControlState.running)
      (read_again ∷ [])
      none
      0
      (batch_of (coordinator_of answered_run))
    ≡ run_calls (quiet ControlState.running) [] none 0 (batch_of (coordinator_of answered_run))
unfolding result_for call encode_result decode_result post_init
run_calls-HasResults_example =
    run_calls-HasResults (quiet ControlState.running) ((read_again, file_text) ∷ []) [] none 0
      (batch_of (coordinator_of answered_run)) (λ w. refl) (refl, tt)

execute_tool_batch-resolved_example :
    execute_tool_batch
      (quiet ControlState.cancel_requested)
      (read_again ∷ [])
      (batch_of (coordinator_of answered_run))
    ≡ (err value_error, batch_of (coordinator_of answered_run))
execute_tool_batch-resolved_example =
    execute_tool_batch-resolved (quiet ControlState.cancel_requested) read_again []
      (batch_of (coordinator_of answered_run)) tt answered refl refl refl

abbrev one_process : ℕ → ℕ
one_process h = 7

abbrev entered_machine : Machine
entered_machine = (enter one_process 1 start).1

entered-Reachable : Reachable one_process entered_machine
unfolding start
entered-Reachable = Reachable.after Reachable.initial (Step.entering 1 refl)

Step-Spec_example :
    let after = (lock_file one_process 1 entered_machine).1 in
    Spec entered_machine.lock after.lock
    × ((h : ℕ) → (after.stage h ≡ Stage.active) ↔ (after.lock ≡ some h))
unfolding enter start
Step-Spec_example =
    Step-Spec one_process entered_machine (lock_file one_process 1 entered_machine).1
      entered-Reachable (Step.locking 1 refl)

abbrev text_file : FilePort Text
text_file = record {
  read_for_edit = λ d. Edited.edited d 0;
  atomic_write_text = λ text d. (true, text);
}

abbrev renaming : List Edit
renaming =
    record { old_string = codes "old"; new_string = codes "new"; replace_all = true }
    ∷ record { old_string = codes "new file"; new_string = codes "file"; replace_all = false }
    ∷ []

multi_edit-AllOrNothing_example :
    AllOrNothing text_file renaming
      (codes "old file, old name")
      (multi_edit text_file true renaming (codes "old file, old name"))
multi_edit-AllOrNothing_example =
    multi_edit-AllOrNothing text_file true renaming (codes "old file, old name")
