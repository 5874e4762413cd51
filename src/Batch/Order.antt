-- ===== src/Batch/Order.antt =====
-- The results that a batch of src/assistant_agent/agent/tool_batch.py adds to the conversation.
use assistant_agent.Base.{
  ℕ, ◌≡◌, sym, ◌∙◌, ◌==◌, Option, none, some, List, [], ◌∷◌, ◌++◌, append_nil, append_assoc,
  if◌then◌else◌, Bool-cases, inl, inr,
}
use assistant_agent.Base.Result.{Result, ok, err, Method}
use assistant_agent.Budget.{Reason}
use assistant_agent.ToolResult.{Text, ToolResult}
use assistant_agent.Run.State.{ToolCall, Message}
use assistant_agent.Run.Coordinator.{Coordinator}
use assistant_agent.Context.Conversation.{add_tool_result}
use assistant_agent.Control.{ControlState}
use assistant_agent.Batch.{
  BatchOutcome, Surroundings, Batch, add_result, cancelled, cancel_pending, interrupted, guarded,
  offered, concluded, executed, resumed, result_for, run_calls, execute_tool_batch, first_reason,
  count_skipped,
}

-- Results of some of the calls, in the order of the calls, at most one for each.
pub data Answers : List ToolCall → List Message → Type 0 where
  stop : {tools : List ToolCall} → Answers tools []
  skip :
      {tool : ToolCall} {tools : List ToolCall} {ms : List Message}
      → Answers tools ms
      → Answers (tool ∷ tools) ms
  answer :
      {tool : ToolCall} {tools : List ToolCall} {ms : List Message} (text : Text)
      → Answers tools ms
      → Answers (tool ∷ tools) (Message.tool tool.id tool.name text ∷ ms)

abbrev pub GrowsTo : List Message → List ToolCall → List Message → Type 0
GrowsTo before tools after =
    (added : List Message) × (after ≡ before ++ added) × Answers tools added

Grows-answer :
    (before : List Message) (tool : ToolCall) (tools : List ToolCall) (text : Text)
    (after : List Message)
    → GrowsTo (before ++ Message.tool tool.id tool.name text ∷ []) tools after
    → GrowsTo before (tool ∷ tools) after
Grows-answer before tool tools text after (added, e, a) = (
  Message.tool tool.id tool.name text ∷ added,
  e ∙ append_assoc before (Message.tool tool.id tool.name text ∷ []) added,
  answer text a,
)

Grows-skip :
    (before : List Message) (tool : ToolCall) (tools : List ToolCall) (after : List Message)
    → GrowsTo before tools after
    → GrowsTo before (tool ∷ tools) after
Grows-skip before tool tools after (added, e, a) = (added, e, skip a)

module _ {W : Type 0} where
  abbrev pub Grows : List Message → List ToolCall → Batch W → Type 0
  Grows before tools b = GrowsTo before tools b.conversation.messages

  Grows-none : (tools : List ToolCall) (b : Batch W) → Grows b.conversation.messages tools b
  Grows-none tools b = ([], sym (append_nil b.conversation.messages), stop)

  cancelled-Grows :
      (further : Method (Batch W) Unit) (tool : ToolCall) (tools : List ToolCall) (b : Batch W)
      (reply : Result ToolResult × Coordinator)
      → ((v : Batch W) → Grows v.conversation.messages tools (further v).1)
      → Grows b.conversation.messages (tool ∷ tools) (cancelled further tool b reply).1
  unfolding add_tool_result
  cancelled-Grows further tool tools b (err e, c) ih =
      Grows-none (tool ∷ tools) (record b { coordinator = c })
  cancelled-Grows further tool tools b (ok r, c) ih =
      Grows-answer b.conversation.messages tool tools r.output _
        (ih (add_result tool r.output (record b { coordinator = c })))

  cancel_pending-Grows :
      (tools : List ToolCall) (b : Batch W)
      → Grows b.conversation.messages tools (cancel_pending tools b).1
  unfolding cancel_pending
  cancel_pending-Grows [] b = Grows-none [] b
  cancel_pending-Grows (tool ∷ tools) b =
      cancelled-Grows (cancel_pending tools) tool tools b _ (cancel_pending-Grows tools)

  interrupted-Grows :
      (out : BatchOutcome) (before : List Message) (tools : List ToolCall)
      (x : Result Unit × Batch W)
      → Grows before tools x.1
      → Grows before tools (interrupted out x).1
  interrupted-Grows out before tools (err e, b) h = h
  interrupted-Grows out before tools (ok done, b) h = h

  guarded-Grows :
      (control : ControlState) (pending : List ToolCall) (reason : Option Reason) (skipped : ℕ)
      (further : Method (Batch W) BatchOutcome) (b : Batch W)
      → Grows b.conversation.messages pending (further b).1
      → Grows b.conversation.messages pending (guarded control pending reason skipped further b).1
  guarded-Grows ControlState.running pending reason skipped further b h = h
  guarded-Grows ControlState.pause_requested pending reason skipped further b h =
      Grows-none pending b
  guarded-Grows ControlState.cancel_requested pending reason skipped further b h =
      interrupted-Grows _ b.conversation.messages pending _ (cancel_pending-Grows pending b)

abbrev Further : Type 0 → Type 0
Further W = Option Reason → ℕ → Method (Batch W) BatchOutcome

module _ {W : Type 0} (port : Surroundings W) (further : Further W) (tool : ToolCall)
    (tools : List ToolCall)
    (ih : (reason : Option Reason) (skipped : ℕ) (v : Batch W)
      → Grows v.conversation.messages tools (further reason skipped v).1) where
  concluded-Grows :
      (reason : Option Reason) (skipped : ℕ) (b : Batch W)
      (reply : Result ToolResult × Coordinator × W)
      → Grows b.conversation.messages
          (tool ∷ tools)
          (concluded port further tool tools reason skipped b reply).1
  unfolding add_tool_result
  concluded-Grows reason skipped b (err e, c, w) =
      Grows-none (tool ∷ tools) (record b { coordinator = c; world = w })
  concluded-Grows reason skipped b (ok r, c, w) =
      elim (Bool-cases (r.code == "mcp_outcome_unknown")) [
        | inl e ↦ rw e (Grows-none (tool ∷ tools) (record b { coordinator = c; world = w }))
        | inr e ↦
            let after = add_result tool r.output (record b { coordinator = c; world = w }) in
            rw e (
              Grows-answer b.conversation.messages tool tools r.output _ (
                guarded-Grows (port.control_state w).0 tools _ _ _
                  (record after { world = (port.control_state w).1 })
                  (ih (first_reason reason r.budget_exhausted) (count_skipped r skipped)
                    (record after { world = (port.control_state w).1 }))))
      ]

  offered-Grows :
      (spent reason : Option Reason) (skipped : ℕ) (b : Batch W)
      → Grows b.conversation.messages
          (tool ∷ tools)
          (executed port further tool tools skipped (offered port spent reason b)).1
  offered-Grows none reason skipped b =
      concluded-Grows reason skipped b (port.execute tool (b.coordinator, b.world))
  offered-Grows (some r) reason skipped b =
      let (granted, c, w) = port.ensure_budget r (b.coordinator, b.world) in
      concluded-Grows (if granted then none else reason) skipped
        (record b { coordinator = c; world = w }) (port.execute tool (c, w))

  resumed-Grows :
      (reason : Option Reason) (skipped : ℕ) (saved : Result (Option ToolResult)) (b : Batch W)
      → Grows b.conversation.messages
          (tool ∷ tools)
          (resumed port further tool tools reason skipped saved b).1
  resumed-Grows reason skipped (err e) b = Grows-none (tool ∷ tools) b
  resumed-Grows reason skipped (ok (some r)) b =
      Grows-skip b.conversation.messages tool tools _ (ih _ _ b)
  resumed-Grows reason skipped (ok none) b = offered-Grows _ reason skipped b

module _ {W : Type 0} (port : Surroundings W) where
  run_calls-Grows :
      (tools : List ToolCall) (reason : Option Reason) (skipped : ℕ) (b : Batch W)
      → Grows b.conversation.messages tools (run_calls port tools reason skipped b).1
  unfolding run_calls
  run_calls-Grows [] reason skipped b = Grows-none [] b
  run_calls-Grows (tool ∷ tools) reason skipped b =
      let v = record b { world = (port.control_state b.world).1 } in
      guarded-Grows (port.control_state b.world).0 (tool ∷ tools) reason skipped _ v (
        resumed-Grows port (run_calls port tools) tool tools (run_calls-Grows tools) reason skipped
          (result_for tool.id v.coordinator) v)

  -- However a batch ends, interrupted, cancelled, with an error or to its end, the conversation has
  -- grown by results of its calls alone, in the order of the calls and at most one for each.
  pub execute_tool_batch-Grows :
      (tools : List ToolCall) (b : Batch W)
      → Grows b.conversation.messages tools (execute_tool_batch port tools b).1
  unfolding execute_tool_batch
  execute_tool_batch-Grows tools b = run_calls-Grows tools none 0 b
