-- ===== src/EventLoop/Keep.antt =====
-- What the callbacks and cancels of the rules keep, wait_next_event of libsponge/util/eventloop.cc
-- keeps.
use cs144_me.Prelude.{Bool, not, ◌&&◌, List, [], ◌∷◌, ◌==◌, if◌then◌else◌}
use cs144_me.Prelude.Result.{ok, IfOk, IfOk-bind, if-both}
use cs144_me.EventLoop.{
  Rule, Outcome, Poll, timed_out, interrupted, failed, ready, Revents, is_finished, set_up, serve,
  dispatch, after_poll, wait_next_event, kept, something_to_poll, poll_ready, service_count,
}
use cs144_me.Channel.Carry.{All}

-- The callback and the cancel of a rule keep P, unless they throw.
pub record Keeps {S : Type 0} (P : S → Type 0) (r : Rule S) : Type 0 where
  pub callback : (s : S) → P s → IfOk P (r.callback s)
  pub cancel : (s : S) → P s → IfOk P (r.cancel s)

module _ {S : Type 0} (P : S → Type 0) where
  abbrev Polled : List (Rule S × Bool) × S → Type 0
  Polled x = All (Keeps P) (kept x.0) × P x.1

  abbrev pub Left : List (Rule S) × S → Type 0
  Left x = All (Keeps P) x.0 × P x.1

  abbrev pub After : Outcome × List (Rule S) × S → Type 0
  After x = All (Keeps P) x.1 × P x.2

  set_up_lem :
      (rules : List (Rule S)) (s : S) → All (Keeps P) rules → P s → IfOk Polled (set_up s rules)
  unfolding set_up
  set_up_lem [] s k p = (tt, p)
  set_up_lem (r ∷ rules) s k p =
      if-both (IfOk Polled) (is_finished s r) _ _
        (IfOk-bind P Polled (r.cancel s) _ (k.0.cancel s p) (λ s' p'. set_up_lem rules s' k.1 p'))
        (IfOk-bind Polled Polled (set_up s rules) _ (set_up_lem rules s k.1 p)
          (λ x q. ((k.0, q.0), q.1)))

  serve_lem : (r : Rule S) (s : S) → Keeps P r → P s → IfOk P (serve s r)
  unfolding serve
  serve_lem r s k p =
      IfOk-bind P P (r.callback s) _ (k.callback s p) (λ s' q.
        if-both (IfOk P) (service_count s r == service_count s' r && r.interest s') _ _ tt q)

  dispatch_lem :
      (rules : List (Rule S × Bool)) (s : S) (events : List Revents)
      → All (Keeps P) (kept rules)
      → P s
      → IfOk Left (dispatch s rules events)
  unfolding dispatch
  dispatch_lem [] s events k p = (tt, p)
  dispatch_lem ((r, polled) ∷ rest) s [] k p =
      IfOk-bind Left Left (dispatch s rest []) _ (dispatch_lem rest s [] k.1 p)
        (λ x q. ((k.0, q.0), q.1))
  dispatch_lem ((r, polled) ∷ rest) s (e ∷ events) k p = if-both (IfOk Left) e.error _ _ tt (
      if-both (IfOk Left) (e.hup && (polled && not (poll_ready r polled e))) _ _
        (IfOk-bind P Left (r.cancel s) _ (k.0.cancel s p)
          (λ s' p'. dispatch_lem rest s' events k.1 p'))
        (IfOk-bind P Left (if poll_ready r polled e then serve s r else ok s) _
          (if-both (IfOk P) (poll_ready r polled e) _ _ (serve_lem r s k.0 p) p)
          (λ s' p'.
            IfOk-bind Left Left (dispatch s' rest events) _ (dispatch_lem rest s' events k.1 p')
              (λ x q. ((k.0, q.0), q.1)))))

  after_poll_lem :
      (rules : List (Rule S × Bool)) (s : S) (poll : Poll)
      → All (Keeps P) (kept rules)
      → P s
      → IfOk After (after_poll s rules poll)
  unfolding after_poll
  after_poll_lem rules s timed_out k p = (k, p)
  after_poll_lem rules s interrupted k p = (k, p)
  after_poll_lem rules s failed k p =
      IfOk-bind Left After (dispatch s rules []) _ (dispatch_lem rules s [] k p) (λ x q. q)
  after_poll_lem rules s (ready events) k p =
      IfOk-bind Left After (dispatch s rules events) _ (dispatch_lem rules s events k p) (λ x q. q)

  -- The rules that are left keep P too.
  pub wait_next_event-Keeps :
      (rules : List (Rule S)) (s : S) (poll : Poll)
      → All (Keeps P) rules
      → P s
      → IfOk After (wait_next_event s rules poll)
  unfolding wait_next_event
  wait_next_event-Keeps rules s poll k p =
      IfOk-bind Polled After (set_up s rules) _ (set_up_lem rules s k p) (λ x q.
        if-both (IfOk After) (something_to_poll x.0) _ _ (after_poll_lem x.0 x.1 poll q.0 q.1) q)
