-- ===== src/Clients/Publisher/Published.antt =====
-- The streams and the PUBLISH_DONE of moqt-pub in both modes, on a session that stays connected.
use moqt_minimal.Prelude.{ℕ, zero, suc, ◌≡◌, Bool, true, false, List, [], ◌∷◌}
use moqt_minimal.Session.Subgroups.{subgroup_header}
use moqt_minimal.Session.Streams.{Sink, SubgroupWriter}
use moqt_minimal.Session.Streams.Lossless.{IsLossless, Holds}
use moqt_minimal.Clients.Ivf.{IvfFrame}
use moqt_minimal.Clients.Publisher.Groups.{joined}
use moqt_minimal.Clients.Publisher.Groups.{AreGroups}
use moqt_minimal.Clients.Ivf.{as_frame}
use moqt_minimal.Prelude.{map}
use moqt_minimal.Clients.Publisher.Demo.{demo_payloads, demo_ids}

-- The demo objects as frames.
abbrev pub demo_group : ℕ → List IvfFrame
demo_group group_id = map as_frame (demo_payloads group_id)

abbrev pub demo_groups : List (List IvfFrame)
demo_groups = map demo_group demo_ids

-- What is cut into the groups.
abbrev pub IsCut : Bool → List IvfFrame → List (List IvfFrame) → Type 0
IsCut true frames gs = (joined gs ≡ frames) × AreGroups gs
IsCut false frames gs = gs ≡ demo_groups

-- The ids from `i` on.
abbrev ids_from : ℕ → ℕ → List ℕ
ids_from i zero = []
ids_from i (suc n) = i ∷ ids_from (suc i) n

module _ {W : Type 0} (sink : Sink W) (session : ℕ) (l : IsLossless sink session) where
  abbrev HoldsPayloads : ℕ → List (List ℕ) → SubgroupWriter W → Type 0
  HoldsPayloads g = Holds sink session l (subgroup_header 1 g 0)
