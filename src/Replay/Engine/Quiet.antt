-- ===== src/Replay/Engine/Quiet.antt =====
-- The action of a run leaves the claims alone, whether it returns or raises, if the browser does.
use tandem_interface_ai.Prelude.{
  ℕ, String, ◌≡◌, refl, ◌∙◌, arith, Bool, true, false, ◌&&◌, Option, none, some, if◌then◌else◌,
}
use tandem_interface_ai.Prelude.Eq.{◌==◌}
use tandem_interface_ai.Domain.Errors.{Error}
use tandem_interface_ai.Domain.Effects.{class_eq, commit as commit_class}
use tandem_interface_ai.Domain.Capability.{CapabilityDefinition}
use tandem_interface_ai.Domain.Fields.{Fields}
use tandem_interface_ai.Domain.Outcomes.{
  ExecutionOutcome, recoverable_failure, network_timeout, outcome,
}
use tandem_interface_ai.Ledger.Session.{
  World, Result, ok, raised, M, ◌>>=◌, ◌>>◌, pure, continue, lift, attempt, handle,
}
use tandem_interface_ai.Ledger.Leases.{heartbeat_lease}
use tandem_interface_ai.Replay.Http.{execute_http_commit}
use tandem_interface_ai.Replay.Engine.{Platform, EffectEngine, is_http}
use tandem_interface_ai.Replay.Engine.Act.{
  maintain_action_lease, perform, is_open, reconcile, reconcile_if_open, on_exception, execute,
}

-- However the action ends, the claims are as before.
abbrev pub Quiet : {A : Type 0} → M A → Type 0
Quiet m = (w : World) → (m w).1.db.claims ≡ w.db.claims

module _ {A : Type 0} where
  continue-Quiet :
      {B : Type 0} (r : Result A) (f : A → M B) (v : World)
      → ((a : A) → Quiet (f a))
      → (continue r f v).1.db.claims ≡ v.db.claims
  continue-Quiet (ok a) f v h = h a v
  continue-Quiet (raised e) f v h = refl

  pub bind-Quiet :
      {B : Type 0} (m : M A) (f : A → M B) → Quiet m → ((a : A) → Quiet (f a)) → Quiet (m >>= f)
  bind-Quiet m f hm hf w = continue-Quiet (m w).0 f (m w).1 hf ∙ hm w

  if-Quiet : (b : Bool) (m n : M A) → Quiet m → Quiet n → Quiet (if b then m else n)
  if-Quiet true m n hm hn w = hm w
  if-Quiet false m n hm hn w = hn w

  handle-Quiet :
      (r : Result A) (f : Error → M A) (v : World)
      → ((e : Error) → Quiet (f e))
      → (handle f (r, v)).1.db.claims ≡ v.db.claims
  handle-Quiet (ok a) f v h = refl
  handle-Quiet (raised e) f v h = h e v

  attempt-Quiet :
      (m : M A) (f : Error → M A) → Quiet m → ((e : Error) → Quiet (f e)) → Quiet (attempt m f)
  attempt-Quiet m f hm hf w = handle-Quiet (m w).0 f (m w).1 hf ∙ hm w

heartbeat-Quiet :
    (case_id owner : String) (token : ℕ) (now : Option ℕ) (ttl : ℕ)
    → Quiet (heartbeat_lease case_id owner token now ttl)
unfolding heartbeat_lease
heartbeat-Quiet case_id owner token none ttl w = ground arith
heartbeat-Quiet case_id owner token (some t) ttl w = ground arith

module _ (p : Platform) (e : EffectEngine) (c : CapabilityDefinition) (case_id : String)
    (inputs : Fields) where
  maintain-Quiet : (token : ℕ) → Quiet (maintain_action_lease p e c case_id inputs token)
  unfolding maintain_action_lease
  maintain-Quiet token w =
      bind-Quiet (heartbeat_lease case_id e.owner_id token none _) _ (heartbeat-Quiet _ _ _ _ _)
        (λ _ v. refl) w

  module _ (browser_quiet : (m : M (Unit {0})) → Quiet m → Quiet (p.browser m c inputs)) where
    perform-Quiet : (token : ℕ) → Quiet (perform p e c case_id inputs token)
    unfolding perform
    perform-Quiet token w =
        if-Quiet (is_http c)
          (maintain_action_lease p e c case_id inputs token
            >> lift (execute_http_commit p.texts p.lower p.post p.fetch c inputs 1))
          (p.browser (maintain_action_lease p e c case_id inputs token) c inputs)
          (bind-Quiet _ _ (maintain-Quiet token) (λ _ v. refl))
          (browser_quiet _ (maintain-Quiet token)) w

    reconcile_if_open-Quiet :
        (o : ExecutionOutcome) → Quiet (reconcile_if_open p e c case_id inputs o)
    unfolding reconcile_if_open
    reconcile_if_open-Quiet o w =
        if-Quiet (c.effect.effect_class == commit_class && is_open p e c case_id inputs o)
          (reconcile p e c case_id inputs) (pure o) (λ v. refl) (λ v. refl) w

    on_exception-Quiet : (x : Error) → Quiet (on_exception p e c case_id inputs x)
    unfolding on_exception
    on_exception-Quiet x w =
        if-Quiet (c.effect.effect_class == commit_class) (reconcile p e c case_id inputs)
          (pure (outcome recoverable_failure network_timeout "")) (λ v. refl) (λ v. refl) w

    pub execute-Quiet : (token : ℕ) → Quiet (execute p e c case_id inputs token)
    unfolding execute
    execute-Quiet token w =
        attempt-Quiet
          (perform p e c case_id inputs token >>= reconcile_if_open p e c case_id inputs)
          (on_exception p e c case_id inputs)
          (bind-Quiet (perform p e c case_id inputs token) (reconcile_if_open p e c case_id inputs)
            (perform-Quiet token) reconcile_if_open-Quiet)
          on_exception-Quiet w
