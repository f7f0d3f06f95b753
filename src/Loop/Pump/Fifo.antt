-- ===== src/Loop/Pump/Fifo.antt =====
-- The order in which the tasks without delay are run.
use ashe.Base.{
  ◌≡◌, refl, ap, sym, ◌∙◌, Bool, true, false, ◌&&◌, List, [], ◌∷◌, ◌++◌, append_assoc, append-nil,
  ◌==◌, if◌then◌else◌, arith,
}
use ashe.Loop.{
  PendingTask, MessageLoop, create_loop, task_less, push_delayed, add_to_incoming_queue,
  add_to_delayed_work_queue,
}
use ashe.Loop.Pump.{World, create, Reach}
use ashe.Loop.Pump.Rule.{Books, Keeps, Reach-Holds}

-- A task that `doWork` runs as soon as it comes to it.
abbrev pub is_prompt : PendingTask → Bool
is_prompt t = t.delayed_run_time == 0 && t.nestable

abbrev keep_if : Bool → PendingTask → List PendingTask → List PendingTask
keep_if b t ts = if b then t ∷ ts else ts

abbrev pub prompts : List PendingTask → List PendingTask
prompts [] = []
prompts (t ∷ ts) = keep_if (is_prompt t) t (prompts ts)

keep_if-append :
    (b : Bool) (t : PendingTask) (a c : List PendingTask)
    → keep_if b t (a ++ c) ≡ keep_if b t a ++ c
keep_if-append true t a c = refl
keep_if-append false t a c = refl

prompts-append : (a b : List PendingTask) → prompts (a ++ b) ≡ prompts a ++ prompts b
prompts-append [] b = refl
prompts-append (t ∷ a) b =
    ap (keep_if (is_prompt t) t) (prompts-append a b)
    ∙ keep_if-append (is_prompt t) t (prompts a) (prompts b)

prompts-last :
    (a : List PendingTask) (t : PendingTask)
    → prompts (a ++ t ∷ []) ≡ prompts a ++ keep_if (is_prompt t) t []
prompts-last a t = prompts-append a (t ∷ [])

not_kept :
    (b : Bool) (t : PendingTask) (ts : List PendingTask)
    → keep_if b t ts ≡ []
    → (b ≡ false) × (ts ≡ [])
not_kept true t ts h = cc
not_kept false t ts h = (refl, h)

prompts-push_delayed :
    (t : PendingTask) (q : List PendingTask)
    → is_prompt t ≡ false
    → prompts q ≡ []
    → prompts (push_delayed t q) ≡ []
unfolding push_delayed
prompts-push_delayed t [] n h = ap (λ b. keep_if b t []) n
prompts-push_delayed t (x ∷ q) n h =
    let h' = not_kept (is_prompt x) x (prompts q) h in
    elim (task_less x t) as (λ b. prompts (if b then t ∷ x ∷ q else x ∷ push_delayed t q) ≡ []) [
      | true ↦ ap (λ b. keep_if b t (prompts (x ∷ q))) n ∙ h
      | false ↦
          ap (λ b. keep_if b x (prompts (push_delayed t q))) h'.0 ∙ prompts-push_delayed t q n h'.1
    ]

abbrev Ordered : Books
Ordered l p r =
    (prompts r ++ (prompts l.work_queue ++ prompts l.incoming_queue) ≡ prompts p)
    × (prompts l.delayed_work_queue ≡ [])
    × (prompts l.deferred_queue ≡ [])

Ordered-Keeps : Keeps Ordered
unfolding create create_loop add_to_incoming_queue add_to_delayed_work_queue
Ordered-Keeps = record {
  new = (refl, refl, refl);
  flags = λ a n l p r h. h;
  posts = λ t l p r h. (
    ap (λ q. prompts r ++ (prompts l.work_queue ++ q)) (prompts-last l.incoming_queue t)
        ∙ ap (λ q. prompts r ++ q)
            (sym (
              append_assoc (prompts l.work_queue) (prompts l.incoming_queue)
                (keep_if (is_prompt t) t [])))
        ∙ sym (
            append_assoc (prompts r) (prompts l.work_queue ++ prompts l.incoming_queue)
              (keep_if (is_prompt t) t []))
        ∙ ap (λ q. q ++ keep_if (is_prompt t) t []) h.0
        ∙ sym (prompts-last p t),
    h.1,
    h.2,
  );
  swaps = λ l p r e h. (
    ap (λ q. prompts r ++ (prompts l.incoming_queue ++ prompts q)) e
        ∙ ap (λ q. prompts r ++ q) (append-nil (prompts l.incoming_queue))
        ∙ ap (λ q. prompts r ++ (prompts q ++ prompts l.incoming_queue)) (sym e)
        ∙ h.0,
    h.1,
    h.2,
  );
  delays = λ t ts l p r e d h. (
    sym (passed t ts l r (ground (arith, d)) e) ∙ h.0,
    prompts-push_delayed (record t { sequence_num = l.next_sequence_num }) l.delayed_work_queue
        (ground (arith, d)) h.1,
    h.2,
  );
  defers = λ t ts l p r e d h. (
    sym (passed t ts l r (ground (arith, d)) e) ∙ h.0,
    h.1,
    put_off t l.deferred_queue (ground (arith, d)) h.2,
  );
  runs = λ t ts l p r e d n h.
      let k : is_prompt t ≡ true = ground (arith, d, n) in
      (
        ap (λ q. q ++ (prompts ts ++ prompts l.incoming_queue))
              (prompts-last r t ∙ ap (λ b. prompts r ++ keep_if b t []) k)
            ∙ append_assoc (prompts r) (t ∷ []) (prompts ts ++ prompts l.incoming_queue)
            ∙ ap (λ b. prompts r ++ (keep_if b t (prompts ts) ++ prompts l.incoming_queue)) (sym k)
            ∙ ap (λ q. prompts r ++ (prompts q ++ prompts l.incoming_queue)) (sym e)
            ∙ h.0,
        h.1,
        h.2,
      );
  defers_delayed = λ t ts l p r e d h. (
    h.0,
    (not_kept (is_prompt t) t (prompts ts) (ap prompts (sym e) ∙ h.1)).1,
    put_off t l.deferred_queue (ground (arith, d)) h.2,
  );
  runs_delayed = λ t ts l p r e h.
      let k = not_kept (is_prompt t) t (prompts ts) (ap prompts (sym e) ∙ h.1) in
      (ran_late t l r k.0 ∙ h.0, k.1, h.2);
  runs_deferred = λ t ts l p r e h.
      let k = not_kept (is_prompt t) t (prompts ts) (ap prompts (sym e) ∙ h.2) in
      (ran_late t l r k.0 ∙ h.0, h.1, k.1);
}
  where
    -- The front task that is not run at once.
    passed :
        (t : PendingTask) (ts : List PendingTask) (l : MessageLoop) (r : List PendingTask)
        → is_prompt t ≡ false
        → l.work_queue ≡ t ∷ ts
        → prompts r ++ (prompts l.work_queue ++ prompts l.incoming_queue)
          ≡ prompts r ++ (prompts ts ++ prompts l.incoming_queue)
    passed t ts l r n e =
        ap (λ q. prompts r ++ (q ++ prompts l.incoming_queue))
          (ap prompts e ∙ ap (λ b. keep_if b t (prompts ts)) n)

    put_off :
        (t : PendingTask) (q : List PendingTask)
        → is_prompt t ≡ false
        → prompts q ≡ []
        → prompts (q ++ t ∷ []) ≡ []
    put_off t q n h =
        prompts-last q t ∙ ap (λ x. x ++ keep_if (is_prompt t) t []) h ∙ ap (λ b. keep_if b t []) n

    ran_late :
        (t : PendingTask) (l : MessageLoop) (r : List PendingTask)
        → is_prompt t ≡ false
        → prompts (r ++ t ∷ []) ++ (prompts l.work_queue ++ prompts l.incoming_queue)
          ≡ prompts r ++ (prompts l.work_queue ++ prompts l.incoming_queue)
    ran_late t l r n =
        ap (λ q. q ++ (prompts l.work_queue ++ prompts l.incoming_queue))
          (prompts-last r t ∙ ap (λ b. prompts r ++ keep_if b t []) n ∙ append-nil (prompts r))

-- The tasks posted without delay that may be run at once are run in the order in which they were
-- posted, whatever else is posted in between: in every world that the loop reaches from its start,
-- those that were run, then those of the work queue, then those of the incoming queue are those
-- that were posted, and none of them is among the delayed or the deferred tasks.
pub Reach-prompts :
    {w : World}
    → Reach create w
    → (prompts w.ran ++ (prompts w.loop.work_queue ++ prompts w.loop.incoming_queue)
        ≡ prompts w.posted)
      × (prompts w.loop.delayed_work_queue ≡ [])
      × (prompts w.loop.deferred_queue ≡ [])
Reach-prompts r = Reach-Holds Ordered Ordered-Keeps r
