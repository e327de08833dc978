-- ===== src/Relay/Examples/Worlds.antt =====
-- A world with one task upstream and a second that waits for its lock.
use moqt_minimal.Prelude.{ℕ, ◌≤◌, ◌≡◌, refl, some}
use moqt_minimal.Map.{get, insert, remove}
use moqt_minimal.Relay.Keys.{same_fields, same_bytes}
use moqt_minimal.Relay.State.{
  new, register_session, register_namespace, find_existing_subscription, find_publisher,
  find_publisher_from, with_session, pop,
}
use moqt_minimal.Relay.Utf8.{is_utf8, utf8_from, following}
use moqt_minimal.Relay.Subscribe
use moqt_minimal.Relay.Subscribe.{
  ready, answered, locking, advance, has_unsupported_filter, set_lock, is_locked,
}
use moqt_minimal.Relay.World.{
  World, Reachable, after, spawn, proceed, connected, announced, spawned, advanced, held,
}
use moqt_minimal.Relay.World.Holders.{IsHeld, Reachable-IsHeld}
use moqt_minimal.Relay.World.Liveness.{answered_times, lock-granted}
use moqt_minimal.Relay.Registry.Refinement.{Implements}
use moqt_minimal.Relay.Registry.Worlds.{registry_of, Reachable-Implements}
use moqt_minimal.Relay.Examples.{upstream_world, upstream_reached, asking, video, accepted}

Reachable-IsHeld_test : IsHeld upstream_world
Reachable-IsHeld_test = Reachable-IsHeld upstream_reached

Reachable-Implements_example : Implements upstream_world.state (registry_of upstream_reached)
Reachable-Implements_example = Reachable-Implements upstream_reached

abbrev waiting_world : World
waiting_world = advanced 1 ready (spawned 1 asking upstream_world)

waiting_reached : Reachable waiting_world
unfolding connected announced spawned advanced advance
waiting_reached = after (after upstream_reached (spawn 1 asking refl)) (proceed 1 ready)

waits : waiting_world.phases 1 ≡ locking video
unfolding connected announced new spawned advanced advance Subscribe.on_checking
    Subscribe.on_locking Subscribe.on_aggregating Subscribe.on_existing Subscribe.on_searching
    Subscribe.on_publisher register_session register_namespace set_lock is_locked insert remove get
    find_existing_subscription find_publisher find_publisher_from with_session pop
    has_unsupported_filter is_utf8 utf8_from following same_fields same_bytes
waits = refl

lock-granted_example :
    (i : ℕ) × (n : ℕ) × (n ≤ 4)
    × (held ((advanced 1 ready (answered_times n i (some accepted) waiting_world)).phases 1)
        ≡ some video)
lock-granted_example = lock-granted (some accepted) waiting_reached waits
