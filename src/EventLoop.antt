-- ===== src/EventLoop.antt =====
-- EventLoop of libsponge/util/eventloop.hh and eventloop.cc, over any state S that the callbacks of
-- its rules read and change. What poll answers is an argument.
pub mod Laws
pub mod Keep
use cs144_me.Prelude.{
  ℕ, Bool, true, false, not, ◌&&◌, ◌||◌, Option, none, some, List, [], ◌∷◌, ◌++◌, ◌==◌,
  if◌then◌else◌,
}
use cs144_me.Prelude.Result.{throw, ok, runtime_error, ◌>>=◌}
use cs144_me.Prelude.Result
use cs144_me.FileDescriptor.{FileDescriptor}

pub data Direction : Type 0 where
  in_dir out_dir : Direction

-- A rule; `fd` finds its descriptor in the state.
pub record Rule (S : Type 0) : Type 0 where
  pub fd : S → FileDescriptor
  pub direction : Direction
  pub callback : S → Result.Result S
  pub interest : S → Bool
  pub cancel : S → Result.Result S

abbrev pub is_in : Direction → Bool
is_in Direction.in_dir = true
is_in Direction.out_dir = false

-- EventLoop::Result
pub data Outcome : Type 0 where
  success timeout exit : Outcome

abbrev pub is_exit : Outcome → Bool
is_exit exit = true
is_exit _ = false

-- The revents of a descriptor: POLLERR or POLLNVAL, POLLHUP, POLLIN and POLLOUT.
pub record Revents : Type 0 where
  pub error : Bool
  pub hup : Bool
  pub readable : Bool
  pub writable : Bool

abbrev pub no_revents : Revents
no_revents = record { error = false; hup = false; readable = false; writable = false }

-- How poll ends: no descriptor is ready, a signal, another error, or with revents.
pub data Poll : Type 0 where
  timed_out interrupted failed : Poll
  ready : List Revents → Poll

module _ {S : Type 0} where
  unfoldable pub service_count : S → Rule S → ℕ
  service_count s r = if is_in r.direction then (r.fd s).read_count else (r.fd s).write_count

  unfoldable pub add_rule : List (Rule S) → Rule S → List (Rule S)
  add_rule rules r = rules ++ (r ∷ [])

  -- Is the rule cancelled before the poll?
  unfoldable pub is_finished : S → Rule S → Bool
  is_finished s r = (is_in r.direction && (r.fd s).eof) || (r.fd s).closed

  -- The first loop: the rules that are left, with whether each is polled.
  unfoldable pub set_up : S → List (Rule S) → Result.Result (List (Rule S × Bool) × S)
  set_up s [] = ok ([], s)
  set_up s (r ∷ rules) =
      if is_finished s r
      then (do s' ← r.cancel s; set_up s' rules)
      else (do (rest, s') ← set_up s rules; ok ((r, r.interest s) ∷ rest, s'))

  abbrev pub something_to_poll : List (Rule S × Bool) → Bool
  something_to_poll [] = false
  something_to_poll ((r, polled) ∷ rest) = polled || something_to_poll rest

  abbrev pub kept : List (Rule S × Bool) → List (Rule S)
  kept [] = []
  kept ((r, polled) ∷ rest) = r ∷ kept rest

  -- `revents & events`
  abbrev pub poll_ready : Rule S → Bool → Revents → Bool
  poll_ready r polled e = polled && (if is_in r.direction then e.readable else e.writable)

  -- The callback of a ready rule, and the check for a busy wait.
  unfoldable pub serve : S → Rule S → Result.Result S
  serve s r = do
    s' ← r.callback s
    if service_count s r == service_count s' r && r.interest s' then throw runtime_error else ok s'

  -- The last loop: the rules that are left.
  unfoldable pub dispatch :
      S → List (Rule S × Bool) → List Revents → Result.Result (List (Rule S) × S)
  dispatch s [] events = ok ([], s)
  dispatch s ((r, polled) ∷ rest) [] = do (rules, s') ← dispatch s rest []; ok (r ∷ rules, s')
  dispatch s ((r, polled) ∷ rest) (e ∷ events) =
      if e.error
      then throw runtime_error
      else if e.hup && (polled && not (poll_ready r polled e))
      then (do s' ← r.cancel s; dispatch s' rest events)
      else (do
        s' ← (if poll_ready r polled e then serve s r else ok s)
        (rules, s'') ← dispatch s' rest events
        ok (r ∷ rules, s''))

  -- An error of poll that is no signal is caught, and the revents are as they were set: none.
  unfoldable pub after_poll :
      S → List (Rule S × Bool) → Poll → Result.Result (Outcome × List (Rule S) × S)
  after_poll s rules timed_out = ok (timeout, kept rules, s)
  after_poll s rules interrupted = ok (exit, kept rules, s)
  after_poll s rules failed = do (left, s') ← dispatch s rules []; ok (success, left, s')
  after_poll s rules (ready events) = do
    (left, s') ← dispatch s rules events
    ok (success, left, s')

  unfoldable pub wait_next_event :
      S → List (Rule S) → Poll → Result.Result (Outcome × List (Rule S) × S)
  wait_next_event s rules poll = do
    (polls, s') ← set_up s rules
    if something_to_poll polls then after_poll s' polls poll else ok (exit, kept polls, s')
