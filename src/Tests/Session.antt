-- ===== src/Tests/Session.antt =====
-- The session, the keys, the links and the ages, at small inputs.
use kd.Common.{
  false, All, lookup, not, ◌+◌, ◌-◌, ◌≡◌, refl, true, none, some, List, [], ◌∷◌, map, Text, text,
  text_eq, contains, filter, lower_unit,
}
use kd.Types.{KNode, Health, RelCategory, rel_eq, truthy}
use kd.Namespaces.{NamespaceInfo}
use kd.Session.{Cluster, ClusterEvent, ContextsRes, react_all, booted}
use kd.Session.Picks.{IsSettled, booted-react_all}
use kd.Keyboard.{Ui}
use kd.Keyboard.Ladder.{rungs, presses, presses-rungs}
use kd.Spotlight.{GroupBy}
use kd.UrlState.{View, CapResource, write_prefs}
use kd.UrlState.Link.{opened_with, create_url_state-reload}
use kd.Bars.{ResBarInputs, group_of, bounds_of, scale_bars, group_max, drawer_resource_bars}
use kd.Bars.Ruler.{IsShown, is_given, drawer_resource_bars-IsShown}
use kd.Layout.Siblings.{index_ids}
use kd.Selection.{Details, drawer_node, selected_node, cap_by_id, is_set, selection_deleted}
use kd.Selection.Drawer.{WasSelected, drawer, drawer_node-WasSelected}
use kd.Tests.{web, pod, by_length, by_length-IsComparator, keeps_lower}

abbrev shop : NamespaceInfo
shop = record { name = text "shop"; health = Health.degraded; non_ready = some 2 }

abbrev events : List ClusterEvent
events =
    ClusterEvent.contexts (
      ContextsRes.ready
        (record { enabled = true; default = text "c"; names = text "c" ∷ text "d" ∷ [] }))
    ∷ ClusterEvent.push (text "c") (shop ∷ [])
    ∷ ClusterEvent.jump
    ∷ ClusterEvent.choose_ctx (text "d")
    ∷ ClusterEvent.stream_error
    ∷ []

booted-react_all_example :
    (t : Cluster) × (react_all by_length events (booted none (some (text "gone"))) ≡ some t)
    × IsSettled t
booted-react_all_example =
    booted-react_all by_length by_length-IsComparator events none (some (text "gone"))

abbrev ui : Ui
ui = record {
  nodes = web ∷ pod ∷ [];
  search = text "web";
  health_filter = some Health.degraded;
  kind_filter = [];
  selected_id = some (text "u2");
  show_help = true;
}

presses-rungs_example :
    (rungs (presses (map lower_unit) by_length by_length 2 ui) ≡ rungs ui - 2)
    × (rungs (presses (map lower_unit) by_length by_length (3 + 2) ui) ≡ 0)
    × ((presses (map lower_unit) by_length by_length 2 ui).nodes ≡ ui.nodes)
presses-rungs_example = presses-rungs (map lower_unit) by_length by_length 2 ui

abbrev view : View
view = record {
  ctx = some (text "c");
  namespace = some (text "shop");
  group_by = GroupBy.nodes;
  rel_filter = RelCategory.network ∷ RelCategory.ownership ∷ [];
  cap_resource = CapResource.memory;
  show_orphaned = true;
  kind_filter = text "Pod" ∷ text "Job" ∷ [];
  initial_sel = none;
}

create_url_state-reload_example :
    let w = opened_with (map lower_unit) view (some true) (some pod) (write_prefs view none) in
    (w.namespace ≡ truthy view.namespace)
    × (w.group_by ≡ view.group_by)
    × (w.cap_resource ≡ view.cap_resource)
    × (w.show_orphaned ≡ view.show_orphaned)
    × ((r : RelCategory) → contains w.rel_filter r ≡ contains view.rel_filter r)
    × ((k : Text) → contains w.kind_filter k ≡ contains view.kind_filter k)
unfolding contains
create_url_state-reload_example =
    create_url_state-reload (map lower_unit) view (some true) (some pod) keeps_lower
      (refl, (refl, tt))
      (
        (((λ h. cc), ((λ h. cc), ((λ h. cc), tt))), refl),
        ((((λ h. cc), ((λ h. cc), ((λ h. cc), tt))), refl), tt),
      )
      none

abbrev inputs : ResBarInputs
inputs = record {
  is_node = false;
  usage = some (record { cpu_milli = some 300; mem_bytes = some 5; containers = none });
  capacity = none;
  allocatable = none;
  request = some (record { cpu_milli = some 100; mem_bytes = none; pods = none });
  limit = some (record { cpu_milli = some 250; mem_bytes = some 0; pods = none });
  host_capacity = none;
}

drawer_resource_bars-IsShown_example :
    (map (λ g. g.res) (drawer_resource_bars inputs)
      ≡ filter (is_given inputs) (CapResource.cpu ∷ CapResource.memory ∷ []))
    × All (IsShown inputs) (drawer_resource_bars inputs)
drawer_resource_bars-IsShown_example = drawer_resource_bars-IsShown inputs

-- Both bars of the CPU end before the usage does, which the scale ends at.
cpu_bars :
    map (λ g. map (λ b. b.bound_frac) g.bars) (group_of inputs CapResource.cpu)
    ≡ (some (record { part = 250; whole = 300 }) ∷ some (record { part = 100; whole = 300 }) ∷ [])
      ∷ []
unfolding group_of bounds_of scale_bars group_max
cpu_bars = refl

abbrev there : Details
there = record {
  selected_id = some (text "u2");
  graph = record { nodes = (text "u2", pod) ∷ []; edges = [] };
  capacity = none;
  nodes = pod ∷ [];
}

-- The pod is deleted while it is selected.
abbrev gone : Details
gone = record there { graph = record { nodes = []; edges = [] }; nodes = [] }

drawer_node-WasSelected_example :
    let shown = (drawer (gone ∷ there ∷ [])).0 in
    ((n : KNode)
      → shown ≡ some n
      → (gone.selected_id ≡ some n.id)
        × WasSelected n (gone ∷ there ∷ [])
        × (selection_deleted (drawer (there ∷ [])).1 gone ≡ not (is_set (selected_node gone))))
    × ((n : KNode) → selected_node gone ≡ some n → shown ≡ some n)
    × ((n : KNode)
        → (drawer (there ∷ [])).1 ≡ some n
        → selected_node gone ≡ none
        → truthy gone.selected_id ≡ some n.id
        → shown ≡ some n)
unfolding lookup
drawer_node-WasSelected_example = drawer_node-WasSelected gone (there ∷ []) (λ id n h. cc)

still_shown :
    ((drawer (gone ∷ there ∷ [])).0 ≡ some pod)
    × (selection_deleted (drawer (there ∷ [])).1 gone ≡ true)
unfolding drawer_node selected_node cap_by_id selection_deleted lookup index_ids
still_shown = (refl, refl)
