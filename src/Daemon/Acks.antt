-- ===== src/Daemon/Acks.antt =====
-- daemon.py: an acked command is reported until the Control Node has answered a report of it.
use the_ozolith.Common.{
  ℕ, String, ◌≡◌, refl, sym, ap, subst, ◌∙◌, ◌⊎◌, inl, inr, Bool, true, false, Option, none, some,
  List, [], ◌∷◌, arith, if◌then◌else◌, nat_eq, string_eq, pair_eq, triple_eq, list_eq,
}
use the_ozolith.Common.Exec.{Result, ok, err, Exec, pure, raise, ◌>>=◌, bind-elim, tried}
use the_ozolith.Common.Keeps.{Preorder}
use the_ozolith.Common.Steady.{Steady, Steady-pure, Steady-bind, steady_rules}
use the_ozolith.Daemon.{Fault, WireStack, Daemon, Payload, Answer, Event, Host, Machine}
use the_ozolith.Daemon.Base.{call, look, observe, change, emit_event}
use the_ozolith.Daemon.Spec.{memoized, current_drivers_hash}
use the_ozolith.Daemon.Beat.{
  rows_of, unobserved, stack_status, stack_statuses, unlisted, status_payload, send, received,
  exchange_heartbeat,
}

-- the Control Node answered a heartbeat that carried these acks
pub record WasReported {H : Type 0} (host : Host H) (acks : List ℕ) : Type 0 where
  pub payload : Payload
  pub answer : Answer
  pub before : H
  pub after : H
  pub carried : payload.completed_commands ≡ acks
  pub answered : host.heartbeat payload before ≡ (ok answer, after)

module _ {H : Type 0} where
  abbrev same_acks : Preorder (Machine H)
  same_acks = record {
    Rel = λ w u. w.daemon.completed ≡ u.daemon.completed;
    same = λ w. refl;
    along = λ w u v h k. h ∙ k;
  }

  Steady-call : {A : Type 0} (m : Exec Fault H A) → Steady same_acks (call m)
  unfolding call
  Steady-call m = record { at = λ w. refl }

  Steady-look : {A : Type 0} (f : Daemon → A) → Steady same_acks (look f)
  unfolding look
  Steady-look f = record { at = λ w. refl }

  Steady-observe : {A : Type 0} (f : Daemon → H → A) → Steady same_acks (observe f)
  unfolding observe
  Steady-observe f = record { at = λ w. refl }

  Steady-memo :
      (hash : String)
      → Steady same_acks (change (λ d. record d { verified_drivers_hash = some hash }))
  unfolding change
  Steady-memo hash = record { at = λ w. refl }

  ruleset acks_rules = (steady_rules, Steady-call, Steady-look, Steady-observe, Steady-memo)

module _ {H : Type 0} (host : Host H) where
  Steady-emit_event : (e : Event) → Steady same_acks (emit_event host e)
  unfolding emit_event
  Steady-emit_event e = search acks_rules

  Steady-memoized : (o : Option String) → Steady same_acks (memoized host o)
  Steady-memoized none = search acks_rules
  Steady-memoized (some hash) = search acks_rules

  Steady-current_drivers_hash : Steady same_acks (current_drivers_hash host)
  unfolding current_drivers_hash
  Steady-current_drivers_hash = search (acks_rules, Steady-memoized)

  Steady-unobserved : (s : WireStack) (e : Fault) → Steady same_acks (unobserved host s e)
  Steady-unobserved s (Fault.docker_error m) = search (acks_rules, Steady-emit_event)
  Steady-unobserved s (Fault.control_unreachable m) = search acks_rules
  Steady-unobserved s (Fault.control_error m) = search acks_rules
  Steady-unobserved s (Fault.secret_name_error m) = search acks_rules
  Steady-unobserved s (Fault.os_error m) = search acks_rules
  Steady-unobserved s (Fault.value_error m) = search acks_rules
  Steady-unobserved s (Fault.launcher_missing m) = search acks_rules
  Steady-unobserved s (Fault.runtime_error m) = search acks_rules

  Steady-unlisted : (e : Fault) → Steady same_acks (unlisted host e)
  Steady-unlisted (Fault.docker_error m) = search (acks_rules, Steady-emit_event)
  Steady-unlisted (Fault.control_unreachable m) = search acks_rules
  Steady-unlisted (Fault.control_error m) = search acks_rules
  Steady-unlisted (Fault.secret_name_error m) = search acks_rules
  Steady-unlisted (Fault.os_error m) = search acks_rules
  Steady-unlisted (Fault.value_error m) = search acks_rules
  Steady-unlisted (Fault.launcher_missing m) = search acks_rules
  Steady-unlisted (Fault.runtime_error m) = search acks_rules

  Steady-rows_of :
      (s : WireStack) (files : List (String × String)) → Steady same_acks (rows_of host s files)
  Steady-rows_of s [] = search acks_rules
  Steady-rows_of s (file ∷ files) = search acks_rules

  Steady-stack_status : (s : WireStack) → Steady same_acks (stack_status host s)
  unfolding stack_status
  Steady-stack_status s = search (acks_rules, Steady-rows_of, Steady-unobserved) depth 12

  Steady-stack_statuses : (stacks : List WireStack) → Steady same_acks (stack_statuses host stacks)
  unfolding stack_statuses
  Steady-stack_statuses [] = search acks_rules
  Steady-stack_statuses (s ∷ stacks) =
      Steady-bind _ _ (Steady-stack_status s)
        (λ row. Steady-bind _ _ (Steady-stack_statuses stacks) (λ rest. Steady-pure _))

  Steady-status_payload : Steady same_acks (status_payload host)
  unfolding status_payload
  Steady-status_payload =
      search (acks_rules, Steady-stack_statuses, Steady-unlisted, Steady-current_drivers_hash) depth
        16

  -- the payload carries the acks of the state that it was built in
  abbrev Carries : Payload → Machine H → Type 0
  Carries p v = p.completed_commands ≡ v.daemon.completed

  looked_lem :
      (f : Daemon → Payload) (u v : Machine H) {p : Payload}
      → ((d : Daemon) → (f d).completed_commands ≡ d.completed)
      → look {H = H} f u ≡ (ok p, v)
      → Carries p v
  unfolding look
  looked_lem f u v k h = ground (arith, k u.daemon, h)

  payload_lem :
      (w : Machine H) {p : Payload} {v : Machine H}
      → status_payload host w ≡ (ok p, v)
      → Carries p v
  unfolding status_payload
  payload_lem w {p} {v} h = bind-elim _ _ w h (λ stacks w1 e1 h1.
      bind-elim _ _ w1 h1 (λ rows w2 e2 h2. bind-elim _ _ w2 h2 (λ blocker w3 e3 h3.
        bind-elim _ _ w3 h3 (λ containers w4 e4 h4.
          bind-elim _ _ w4 h4 (λ hash w5 e5 h5. looked_lem _ w5 v (λ d. refl) h5)))))

  called_lem :
      (p : Payload) (u v : Machine H) {a : Answer}
      → call (host.heartbeat p) u ≡ (ok a, v)
      → host.heartbeat p u.host ≡ (ok a, (host.heartbeat p u.host).1)
  unfolding call
  called_lem p u v h =
      ap (λ (r : Result Fault Answer). (r, (host.heartbeat p u.host).1))
        (ap (λ (q : Result Fault Answer × Machine H). q.0) h)

  sent_lem :
      (w v : Machine H) {a : Answer} → send host w ≡ (ok a, v) → WasReported host w.daemon.completed
  sent_lem w v {a} h = bind-elim (status_payload host) _ w h (λ p u e g. record {
    payload = p;
    answer = a;
    before = u.host;
    after = (host.heartbeat p u.host).1;
    carried =
        payload_lem w e
        ∙ sym (
            subst
              (λ (q : Result Fault Payload × Machine H). w.daemon.completed ≡ q.1.daemon.completed)
              e (Steady-status_payload.at w));
    answered = called_lem p u v g;
  })

  Steady-send : Steady same_acks (send host)
  Steady-send = Steady-bind _ _ Steady-status_payload (λ p. Steady-call (host.heartbeat p))

  abbrev Outcome : Machine H → Machine H → Type 0
  Outcome w u = (w.daemon.completed ≡ u.daemon.completed) ⊎ WasReported host w.daemon.completed

  received_lem :
      (w v : Machine H) (r : Result Fault Answer)
      → send host w ≡ (r, v)
      → w.daemon.completed ≡ v.daemon.completed
      → Outcome w (received host r v).1
  unfolding ◌>>=◌ pure raise change
  received_lem w v (ok a) h same = inr (sent_lem w v h)
  received_lem w v (err (Fault.control_unreachable m)) h same = inl same
  received_lem w v (err (Fault.control_error m)) h same = inl same
  received_lem w v (err (Fault.docker_error m)) h same = inl same
  received_lem w v (err (Fault.secret_name_error m)) h same = inl same
  received_lem w v (err (Fault.os_error m)) h same = inl same
  received_lem w v (err (Fault.value_error m)) h same = inl same
  received_lem w v (err (Fault.launcher_missing m)) h same = inl same
  received_lem w v (err (Fault.runtime_error m)) h same = inl same

  client_lem :
      (w : Machine H) (b : Bool)
      → Outcome w
          ((if b then (do answer ← tried (send host); received host answer) else pure []) w).1
  unfolding ◌>>=◌ pure
  client_lem w true = received_lem w (send host w).1 (send host w).0 refl (Steady-send.at w)
  client_lem w false = inl refl

  -- No ack is lost: an exchange with the Control Node leaves the acked commands as they are, unless
  -- the Control Node answered a heartbeat that carried all of them.
  pub exchange_heartbeat-WasReported :
      (w : Machine H)
      → (w.daemon.completed ≡ (exchange_heartbeat host w).1.daemon.completed)
        ⊎ WasReported host w.daemon.completed
  unfolding exchange_heartbeat
  exchange_heartbeat-WasReported w = client_lem w host.has_client
