-- ===== src/EventLoop/Laws.antt =====
-- The check for a busy wait of libsponge/util/eventloop.cc.
use cs144_me.Prelude.{◌≡◌, refl, Bool, false, ◌&&◌, ◌==◌, if◌then◌else◌}
use cs144_me.Prelude.Result.{Result, ok, throw, runtime_error, ◌>>=◌, IfOk}
use cs144_me.EventLoop.{Rule, service_count, serve}

module _ {S : Type 0} (s : S) (r : Rule S) where
  -- Is the rule still interested, with a descriptor that was not used?
  abbrev pub is_busy : S → Bool
  is_busy s' = service_count s r == service_count s' r && r.interest s'

  guard_lem :
      (c : Result S)
      → IfOk (λ s'. is_busy s' ≡ false) c
      → (c >>= λ s'. if is_busy s' then throw runtime_error else ok s') ≡ c
  guard_lem (throw e) h = refl
  guard_lem (ok s') h = rw h refl

  pub serve_lem : IfOk (λ s'. is_busy s' ≡ false) (r.callback s) → serve s r ≡ r.callback s
  unfolding serve
  serve_lem h = guard_lem (r.callback s) h
