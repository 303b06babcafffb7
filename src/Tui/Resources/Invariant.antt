-- ===== src/Tui/Resources/Invariant.antt =====
-- What the parser knows of resources and nodes is consistent and bounded.
use atum.Base.{
  ◌≤◌, Bool, true, false, not, ◌&&◌, ◌||◌, Option, none, some, List, [], ◌∷◌, Text, text,
  has_prefix, str_eq, str_eq_refl, str_eq_iff, leb, length, if_cases, ◌≡◌, ◌≢◌, refl, sym, ◌∙◌, ap,
  subst, arith,
}
use atum.Tui.Resources.{
  State, running, complete, failed, pending, has, with_elem, without_elem, ResourceSet, empty_set,
  mark, aggregate_state, set_of, put_set, resource_limit, Parser, Resource, update_known, update_of,
  update_resource, terraform_resource, report_node, reported, is_running, is_complete,
}
use atum.Tui.Resources.Sets.{
  HasNoRepeat, IsSubset, has-with_elem, has-without_elem, with_elem-HasNoRepeat,
  without_elem-HasNoRepeat, length-without_elem, length-IsSubset, IsSubset-of_length,
}

-- The complete and the failed are among the expected, none is both, and the expected are bounded.
pub record IsTracked (s : ResourceSet) : Type 0 where
  pub expected_once : HasNoRepeat s.expected
  pub complete_once : HasNoRepeat s.complete
  pub failed_once : HasNoRepeat s.failed
  pub complete_expected : IsSubset s.complete s.expected
  pub failed_expected : IsSubset s.failed s.expected
  pub disjoint : (x : Text) → has x s.complete ≡ true → has x s.failed ≡ false
  pub bounded : length s.expected ≤ resource_limit

with-IsSubset :
    (a : Text) (c e : List Text) → IsSubset c e → IsSubset (with_elem a c) (with_elem a e)
with-IsSubset a c e s x h = ground (arith, has-with_elem x a c, has-with_elem x a e, h, s x)

without-IsSubset :
    (a : Text) (c e : List Text) → IsSubset c e → IsSubset (without_elem a c) (with_elem a e)
without-IsSubset a c e s x h = ground (arith, has-without_elem x a c, has-with_elem x a e, h, s x)

apart :
    (a : Text) (c f : List Text)
    → ((x : Text) → has x c ≡ true → has x f ≡ false)
    → (x : Text) → has x (with_elem a c) ≡ true
    → has x (without_elem a f) ≡ false
apart a c f d x h =
    ground
      (arith, has-with_elem x a c, has-without_elem x a f, h, d x, str_eq_iff x a, str_eq_iff a x)

apart_failed :
    (a : Text) (c f : List Text)
    → ((x : Text) → has x c ≡ true → has x f ≡ false)
    → (x : Text) → has x (without_elem a c) ≡ true
    → has x (with_elem a f) ≡ false
apart_failed a c f d x h =
    ground
      (arith, has-without_elem x a c, has-with_elem x a f, h, d x, str_eq_iff x a, str_eq_iff a x)

apart_both :
    (a : Text) (c f : List Text)
    → ((x : Text) → has x c ≡ true → has x f ≡ false)
    → (x : Text) → has x (without_elem a c) ≡ true
    → has x (without_elem a f) ≡ false
apart_both a c f d x h = ground (arith, has-without_elem x a c, has-without_elem x a f, h, d x)

length-with_elem :
    (a : Text) (e : List Text)
    → (not (has a e) && leb resource_limit (length e)) ≡ false
    → length e ≤ resource_limit
    → length (with_elem a e) ≤ resource_limit
unfolding with_elem
length-with_elem a e h b = ground (arith, h, b)

unmarked :
    (a : Text) (s : ResourceSet)
    → IsTracked s
    → (not (has a s.expected) && leb resource_limit (length s.expected)) ≡ false
    → IsTracked (record {
      expected = with_elem a s.expected;
      complete = without_elem a s.complete;
      failed = without_elem a s.failed;
    })
unmarked a s t h = record {
  expected_once = with_elem-HasNoRepeat a s.expected t.expected_once;
  complete_once = without_elem-HasNoRepeat a s.complete t.complete_once;
  failed_once = without_elem-HasNoRepeat a s.failed t.failed_once;
  complete_expected = without-IsSubset a s.complete s.expected t.complete_expected;
  failed_expected = without-IsSubset a s.failed s.expected t.failed_expected;
  disjoint = apart_both a s.complete s.failed t.disjoint;
  bounded = length-with_elem a s.expected h t.bounded;
}

-- A mark keeps the sets consistent, where the address is expected or there is room for it.
mark-IsTracked :
    (a : Text) (state : State) (s : ResourceSet)
    → IsTracked s
    → (not (has a s.expected) && leb resource_limit (length s.expected)) ≡ false
    → IsTracked (mark a state s)
unfolding mark
mark-IsTracked a complete s t h = record {
  expected_once = with_elem-HasNoRepeat a s.expected t.expected_once;
  complete_once = with_elem-HasNoRepeat a s.complete t.complete_once;
  failed_once = without_elem-HasNoRepeat a s.failed t.failed_once;
  complete_expected = with-IsSubset a s.complete s.expected t.complete_expected;
  failed_expected = without-IsSubset a s.failed s.expected t.failed_expected;
  disjoint = apart a s.complete s.failed t.disjoint;
  bounded = length-with_elem a s.expected h t.bounded;
}
mark-IsTracked a failed s t h = record {
  expected_once = with_elem-HasNoRepeat a s.expected t.expected_once;
  complete_once = without_elem-HasNoRepeat a s.complete t.complete_once;
  failed_once = with_elem-HasNoRepeat a s.failed t.failed_once;
  complete_expected = without-IsSubset a s.complete s.expected t.complete_expected;
  failed_expected = with-IsSubset a s.failed s.expected t.failed_expected;
  disjoint = apart_failed a s.complete s.failed t.disjoint;
  bounded = length-with_elem a s.expected h t.bounded;
}
mark-IsTracked a running s t h = unmarked a s t h
mark-IsTracked a pending s t h = unmarked a s t h

-- For consistent sets the aggregate is complete exactly when something is expected and all of it
-- is complete.
pub aggregate_state-complete :
    (s : ResourceSet)
    → IsTracked s
    → (aggregate_state s ≡ complete → (length s.expected ≢ 0) × IsSubset s.expected s.complete)
      × (length s.expected ≢ 0 → IsSubset s.expected s.complete → aggregate_state s ≡ complete)
unfolding aggregate_state has
aggregate_state-complete s t = (
  (λ e. (
    ground (arith, e),
    IsSubset-of_length s.complete s.expected t.complete_once t.complete_expected
        (ground (arith, e)),
  )),
  λ n h. ground (
    arith,
    n,
    none_failed h s.failed refl,
    length-IsSubset s.expected s.complete t.expected_once h,
    length-IsSubset s.complete s.expected t.complete_once t.complete_expected,
  ),
)
  where
    clash : {b : Bool} → b ≡ false → b ≡ true → ⊥
    clash e f = cc (e, f)

    member : (y : Text) (l : List Text) → s.failed ≡ y ∷ l → has y s.failed ≡ true
    member y l e = ap (has y) e ∙ ground (arith, str_eq_refl y)

    none_failed :
        IsSubset s.expected s.complete → (l : List Text) → s.failed ≡ l → length s.failed ≡ 0
    none_failed h [] e = ap length e
    none_failed h (y ∷ l) e =
        absurd (clash (t.disjoint y (h y (t.failed_expected y (member y l e)))) (member y l e))

unfoldable pub AreTracked : List (Text × ResourceSet) → Type 0
AreTracked [] = Unit
AreTracked ((i, s) ∷ m) = IsTracked s × AreTracked m

empty-IsTracked : IsTracked empty_set
unfolding HasNoRepeat has
empty-IsTracked = record {
  expected_once = tt;
  complete_once = tt;
  failed_once = tt;
  complete_expected = λ x h. h;
  failed_expected = λ x h. h;
  disjoint = λ x h. refl;
  bounded = omega arith;
}

set_of-IsTracked :
    (id : Text) (m : List (Text × ResourceSet)) → AreTracked m → IsTracked (set_of id m)
unfolding set_of AreTracked
set_of-IsTracked id [] a = empty-IsTracked
set_of-IsTracked id ((i, s) ∷ m) a =
    if_cases IsTracked (str_eq id i) (λ _. a.0) (λ _. set_of-IsTracked id m a.1)

put_set-AreTracked :
    (id : Text) (s : ResourceSet) (m : List (Text × ResourceSet))
    → IsTracked s
    → AreTracked m
    → AreTracked (put_set id s m)
unfolding put_set AreTracked
put_set-AreTracked id s [] t a = (t, tt)
put_set-AreTracked id s ((i, u) ∷ m) t a =
    if_cases AreTracked (str_eq id i) (λ _. (t, a.1)) (λ _. (a.0, put_set-AreTracked id s m t a.1))

-- All that the parser remembers is consistent and bounded.
pub record IsConsistent (p : Parser) : Type 0 where
  pub resources : AreTracked p.resources
  pub nodes_once : HasNoRepeat p.active_nodes
  pub nodes_bounded : length p.active_nodes ≤ resource_limit

update_known-IsConsistent :
    (r : Resource) (address : Text) (state : State) (detail : Text) (p : Parser)
    → IsConsistent p
    → IsConsistent (update_known r address state detail p)
unfolding update_known
update_known-IsConsistent r address state detail p c =
    if_cases IsConsistent (not (has address s.expected) && leb resource_limit (length s.expected))
      (λ _. record {
        resources = put_set-AreTracked r.id s p.resources t c.resources;
        nodes_once = c.nodes_once;
        nodes_bounded = c.nodes_bounded;
      })
      (λ h. record {
        resources =
            put_set-AreTracked r.id (mark address state s) p.resources
              (mark-IsTracked address state s t h) c.resources;
        nodes_once = c.nodes_once;
        nodes_bounded = c.nodes_bounded;
      })
  where
    s : ResourceSet
    s = set_of r.id p.resources

    t : IsTracked s
    t = set_of-IsTracked r.id p.resources c.resources

-- Only events are added.
same_memory :
    (p q : Parser)
    → q.resources ≡ p.resources
    → q.active_nodes ≡ p.active_nodes
    → IsConsistent p
    → IsConsistent q
same_memory p q e f c = record {
  resources = subst AreTracked (sym e) c.resources;
  nodes_once = subst HasNoRepeat (sym f) c.nodes_once;
  nodes_bounded = rw f c.nodes_bounded;
}

-- Whatever `updateResource` is told of any address, a memory that is consistent and bounded stays
-- so: the complete and the failed are apart and among the expected, which are at most 512.
pub update_resource-IsConsistent :
    (address : Text) (state : State) (detail : Text) (p : Parser)
    → IsConsistent p
    → IsConsistent (update_resource address state detail p)
unfolding update_resource
update_resource-IsConsistent address state detail p c =
    if_cases IsConsistent (has_prefix address (text "terraform_data.seed_plane"))
      (λ _.
        if_cases IsConsistent (is_running state && p.seed_activity) (λ _. c)
          (λ _. same_memory p _ refl refl c))
      (λ _. known (terraform_resource address))
  where
    known : (o : Option Resource) → IsConsistent (update_of o address state detail p)
    known none = c
    known (some r) = update_known-IsConsistent r address state detail p c

reported-IsConsistent :
    (host : Text) (state : State) (detail : Text) (p : Parser)
    → IsConsistent p
    → IsConsistent (reported host state detail p)
reported-IsConsistent host state detail p c =
    same_memory _ (reported host state detail p) refl refl (
      if_cases IsConsistent (is_running state) (λ _. c)
        (λ _. record {
          resources = c.resources;
          nodes_once = without_elem-HasNoRepeat host p.active_nodes c.nodes_once;
          nodes_bounded = omega (arith, length-without_elem host p.active_nodes, c.nodes_bounded);
        }))

-- Whatever `reportNode` is told of any node, a memory that is consistent and bounded stays so:
-- the active nodes have no repetition and are at most 512.
pub report_node-IsConsistent :
    (host : Text) (state : State) (detail : Text) (p : Parser)
    → IsConsistent p
    → IsConsistent (report_node host state detail p)
unfolding report_node HasNoRepeat
report_node-IsConsistent host state detail p c =
    if_cases IsConsistent (has host p.active_nodes)
      (λ _. reported-IsConsistent host state detail p c)
      (λ absent.
        if_cases IsConsistent (is_complete state || leb resource_limit (length p.active_nodes))
          (λ _. c)
          (λ h. reported-IsConsistent host state detail _ (record {
            resources = c.resources;
            nodes_once = (absent, c.nodes_once);
            nodes_bounded = ground (arith, h);
          })))
