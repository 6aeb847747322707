-- ===== src/Runtime/Server/Overlap/Answered.antt =====
-- The replies of a server whose requests overlap.
use ts_plugins.Common.{
  ℕ, ◌+◌, ◌≡◌, refl, ap, ◌∙◌, Option, nat_eq, List, [], ◌∷◌, ◌++◌, arith, if◌then◌else◌,
}
use ts_plugins.Protocol.{WireEnvelope}
use ts_plugins.Runtime.Metrics.{RuntimeMetrics}
use ts_plugins.Runtime.Dispatcher.{error, Settled, rejected, refused, started}
use ts_plugins.Runtime.Server.{Readings, ServerState, Server}
use ts_plugins.Runtime.Server.Overlap.Arrival.{
  Arrived, answers, enters, joins, arrive_found-Arrived, after_result-IsReply,
}
use ts_plugins.Runtime.Server.Overlap.{Task, ServerWorld, replied, arrive, respond}
use ts_plugins.Runtime.Server.Overlap.Steps.{
  ServerStep, arrives, call_ends, pool_ends, times_out, abandoned_ends, responds, ServerReach,
  starts, goes_on,
}

-- How many have this id.
unfoldable pub tally {ℓ} : {A : Type ℓ} → (A → ℕ) → ℕ → List A → ℕ
tally id_of id [] = 0
tally id_of id (a ∷ rest) = (if nat_eq (id_of a) id then 1 else 0) + tally id_of id rest

abbrev pub reply_id : WireEnvelope → ℕ
reply_id envelope = envelope.request_id

abbrev pub task_id {ℓ} : {Schema : Type ℓ} → Task Schema → ℕ
task_id task = task.request_id

abbrev pub ended_id {ℓ} : {Schema : Type ℓ} → Task Schema × Settled → ℕ
ended_id (task, settled) = task.request_id

tally-middle {ℓ} :
    {A : Type ℓ} (id_of : A → ℕ) (id : ℕ) (before after : List A) (a : A)
    → tally id_of id (before ++ a ∷ after)
      ≡ (if nat_eq (id_of a) id then 1 else 0) + tally id_of id (before ++ after)
unfolding tally
tally-middle id_of id [] after a = refl
tally-middle id_of id (b ∷ before) after a =
    let ih = tally-middle id_of id before after a in omega arith

-- Every request that has come is answered, or awaited, or about to be answered.
record Balanced {ℓ} {Schema : Type ℓ} (id : ℕ) (w : ServerWorld Schema) : Type 0 where
  balance :
      tally (λ i. i) id w.received
      ≡ tally reply_id id w.replies + tally task_id id w.awaited + tally ended_id id w.ended

-- One request with this id is nowhere yet.
record OneMore {ℓ} {Schema : Type ℓ} (id request_id : ℕ) (w : ServerWorld Schema) : Type 0 where
  one_more :
      tally (λ i. i) id w.received
      ≡ (if nat_eq request_id id then 1 else 0)
        + tally reply_id id w.replies
        + tally task_id id w.awaited
        + tally ended_id id w.ended

replied-Balanced {ℓ} :
    {Schema : Type ℓ} {id request_id : ℕ} (w : ServerWorld Schema)
    (reply : WireEnvelope × ServerState)
    → reply.0.request_id ≡ request_id
    → OneMore id request_id w
    → Balanced id (replied w reply)
unfolding tally
replied-Balanced {id = id} w (envelope, state) e h = record {
  balance = rw e (let more = h.one_more in omega arith);
}

module _ {ℓ} {Schema H : Type ℓ} (server : Server Schema H) (id : ℕ) where
  Arrived-Balanced :
      (v w : ServerWorld Schema) (request_id : ℕ)
      → Arrived server v request_id w
      → OneMore id request_id v
      → Balanced id w
  unfolding tally
  Arrived-Balanced v w request_id (answers reply r) h = replied-Balanced v reply r.keeps_id h
  Arrived-Balanced v w request_id
        (enters state method request trace_context purpose (refused message, after) kept step init)
        h =
      record { balance = let more = h.one_more in omega arith }
  Arrived-Balanced v w request_id
        (enters state method request trace_context purpose
          (started handler context, after)
          kept
          step
          init)
        h =
      record { balance = let more = h.one_more in omega arith }
  Arrived-Balanced v w request_id (joins state method request trace_context kept other) h = record {
    balance = let more = h.one_more in omega arith;
  }

  respond-Balanced :
      (w : ServerWorld Schema) (task : Task Schema) (settled : Settled) (readings : Readings)
      → OneMore id task.request_id w
      → Balanced id (respond server w task settled readings)
  unfolding respond
  respond-Balanced w task settled readings h =
      replied-Balanced w _
        (after_result-IsReply server w.server task.request_id task.method task.request
          task.trace_context readings settled).keeps_id
        h

  -- A task that is awaited no more, and has ended.
  ended-tally :
      (awaited earlier later : List (Task Schema)) (ended : List (Task Schema × Settled))
      (task : Task Schema) (settled : Settled)
      → awaited ≡ earlier ++ task ∷ later
      → tally task_id id awaited + tally ended_id id ended
        ≡ tally task_id id (earlier ++ later) + tally ended_id id ((task, settled) ∷ ended)
  unfolding tally
  ended-tally awaited earlier later ended task settled e =
      let at = ap (tally task_id id) e ∙ tally-middle task_id id earlier later task in omega arith

  step-Balanced : (v w : ServerWorld Schema) → ServerStep server v w → Balanced id v → Balanced id w
  unfolding arrive tally
  step-Balanced v w (arrives u request_id method_id payload trace_context readings) h =
      Arrived-Balanced (record u { received = request_id ∷ u.received }) _ request_id
        (arrive_found-Arrived server _ request_id method_id payload trace_context readings _)
        (record { one_more = let b = h.balance in omega arith })
  step-Balanced v w (call_ends u before after call settled earlier later task e e' e'') h = record {
    balance =
        let moved = ended-tally u.awaited earlier later u.ended task settled e' in
        let b = h.balance in omega arith;
  }
  step-Balanced v w (pool_ends u settled earlier later task e e') h = record {
    balance =
        let moved = ended-tally u.awaited earlier later u.ended task settled e in
        let b = h.balance in omega arith;
  }
  step-Balanced v w (times_out u timeout_ms earlier later task e e') h = record {
    balance =
        let moved = ended-tally u.awaited earlier later u.ended task (rejected (error [])) e in
        let b = h.balance in omega arith;
  }
  step-Balanced v w (abandoned_ends u before after call settled earlier later e e') h = record {
    balance = h.balance;
  }
  step-Balanced v w (responds u readings earlier later task settled e) h =
      respond-Balanced _ task settled readings (record {
        one_more =
            let at =
              ap (tally ended_id id) e ∙ tally-middle ended_id id earlier later (task, settled) in
            let b = h.balance in omega arith;
      })

  -- However requests overlap, the requests with one id that have come are, counted one by one, those
  -- that are answered, those that are awaited and those whose answer is due: none is answered twice,
  -- none is lost, and no reply answers a request that has not come.
  pub replies_once :
      (metrics : Option RuntimeMetrics) (w : ServerWorld Schema)
      → ServerReach server metrics w
      → tally (λ i. i) id w.received
        ≡ tally reply_id id w.replies + tally task_id id w.awaited + tally ended_id id w.ended
  unfolding tally
  replies_once metrics w r = (along w r).balance
    where
      along : (w : ServerWorld Schema) → ServerReach server metrics w → Balanced id w
      along w starts = record { balance = refl }
      along w (goes_on {v = v} r step) = step-Balanced v w step (along v r)
