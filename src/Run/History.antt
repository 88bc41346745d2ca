-- ===== src/Run/History.antt =====
-- What the log of a run says, whatever its steps do and whatever is called from outside.
use janus_core.Base.{ℕ, suc, String, ◌≡◌, refl, some, List, [], ◌∷◌, arith, length, All}
use janus_core.Run.Types.{artifact_updated, JanusEvent, Control, Options, Failure}
use janus_core.Run.Types.{create}
use janus_core.Run.Execute.{JanusStep, execute}
use janus_core.Run.Invariant.{After, IsApproved, IsKept}
use janus_core.Run.Kept.{execute-Keeps}
use janus_core.Delivery.{DeliveryGate}

-- The events, the newest first, are numbered from one without a gap.
abbrev pub Numbered : List JanusEvent → Type 0
Numbered [] = Unit
Numbered (e ∷ es) = (e.seq ≡ suc (length es)) × Numbered es

pub record IsHistory (o : Options) (n : ℕ) (log : List JanusEvent) : Type 0 where
  pub counted : n ≡ length log
  pub numbered : Numbered log
  pub own : All (λ e. e.run_id ≡ o.run_id) log

-- Every artifact of the log that a gate stood in front of is one that the gate approved.
abbrev pub AllApproved : Options → List JanusEvent → Type 0
AllApproved o log =
    All
      (λ e.
        e.type ≡ artifact_updated
        → (gate : DeliveryGate) → o.delivery_gate ≡ some gate
        → IsApproved gate e)
      log

module _ (o : Options) where
  IsHistory-IsKept : IsKept o (λ n log b. IsHistory o n log)
  IsHistory-IsKept = record {
    aborts = λ n log b h. h;
    admits = λ n log b e s a h. record {
      counted = omega (arith, h.counted);
      numbered = (omega (arith, h.counted, s), h.numbered);
      own = (a.own, h.own);
    };
  }

  AllApproved-IsKept : IsKept o (λ n log b. AllApproved o log)
  AllApproved-IsKept = record {
    aborts = λ n log b h. h;
    admits = λ n log b e s a h. (a.approved, h);
  }

  module _ (describe : Failure → String) (steps : List JanusStep)
      (schedule : List (List Control)) where
    -- However a run ends, or where it waits: its events are numbered 1, 2, 3, … in the order in which
    -- the sink got them, `seq` is their number, and each carries the id of the run.
    pub execute-IsHistory :
        After (λ r. IsHistory o r.seq r.log) (execute o describe steps (create o schedule))
    execute-IsHistory =
        execute-Keeps o _ IsHistory-IsKept describe steps (create o schedule)
          (record { counted = refl; numbered = tt; own = tt })

    -- Where a delivery gate is configured, every artifact event of a run delivers a content that the
    -- gate has passed, whatever the steps emit.
    pub execute-AllApproved :
        After (λ r. AllApproved o r.log) (execute o describe steps (create o schedule))
    execute-AllApproved = execute-Keeps o _ AllApproved-IsKept describe steps (create o schedule) tt
