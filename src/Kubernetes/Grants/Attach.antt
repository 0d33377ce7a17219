-- ===== src/Kubernetes/Grants/Attach.antt =====
-- src/kubernetes/reference_grants.rs: what listeners_for_parent_ref answers.
use portail.Prelude.{
  Bool, true, false, not, ◌&&◌, List, [], ◌∷◌, ◌++◌, ◌≡◌, refl, ◌∙◌, ap, if◌then◌else◌, Bytes,
  bytes_eq, any, is_empty, Bool-cases, inl, inr,
}
use mathlib.Core.List.{append-nil, append_assoc}
use portail.Prelude.Map.{Map}
use portail.Kubernetes.Objects.{int_beq, Listener, ParentRef, is_none_or, route_hostnames_intersect}
use portail.Kubernetes.Grants.{
  Rejection, no_matching_parent, no_matching_listener_hostname, not_allowed_by_listeners, raised,
  ok, err, examine, examine_all, is_route_allowed_by_listener, listeners_for_parent_ref,
}

-- The listeners that the reference names, and among them those of another hostname, those that refuse the route, and
-- those that take it.
abbrev pub is_selected : ParentRef → Listener → Bool
is_selected pr l =
    is_none_or pr.section_name (λ section. bytes_eq section l.name)
    && is_none_or pr.port (λ port. int_beq port l.port)

-- The most specific reason, by whether a listener refuses and whether one has another hostname.
abbrev pub worst : Bool → Bool → Rejection
worst true mismatched = not_allowed_by_listeners
worst false true = no_matching_listener_hostname
worst false false = no_matching_parent

raised_none : (best : Rejection) → raised no_matching_parent best ≡ best
raised_none no_matching_parent = refl
raised_none no_matching_listener_hostname = refl
raised_none not_allowed_by_listeners = refl

raised_parent : (r : Rejection) → raised r no_matching_parent ≡ r
raised_parent no_matching_parent = refl
raised_parent no_matching_listener_hostname = refl
raised_parent not_allowed_by_listeners = refl

raised_mismatched :
    (r m : Bool) (best : Rejection)
    → raised (worst r m) (raised no_matching_listener_hostname best) ≡ raised (worst r true) best
raised_mismatched true m no_matching_parent = refl
raised_mismatched true m no_matching_listener_hostname = refl
raised_mismatched true m not_allowed_by_listeners = refl
raised_mismatched false true no_matching_parent = refl
raised_mismatched false true no_matching_listener_hostname = refl
raised_mismatched false true not_allowed_by_listeners = refl
raised_mismatched false false no_matching_parent = refl
raised_mismatched false false no_matching_listener_hostname = refl
raised_mismatched false false not_allowed_by_listeners = refl

raised_refused :
    (r m : Bool) (best : Rejection)
    → raised (worst r m) (raised not_allowed_by_listeners best)
      ≡ raised not_allowed_by_listeners best
raised_refused true m no_matching_parent = refl
raised_refused true m no_matching_listener_hostname = refl
raised_refused true m not_allowed_by_listeners = refl
raised_refused false true no_matching_parent = refl
raised_refused false true no_matching_listener_hostname = refl
raised_refused false true not_allowed_by_listeners = refl
raised_refused false false no_matching_parent = refl
raised_refused false false no_matching_listener_hostname = refl
raised_refused false false not_allowed_by_listeners = refl

module _ (pr : ParentRef) (route_hostnames : List Bytes) (is_allowed : Listener → Bool) where
  unfoldable pub mismatches : Listener → Bool
  mismatches l = is_selected pr l && not (route_hostnames_intersect l.hostname route_hostnames)

  unfoldable pub refuses : Listener → Bool
  refuses l =
      is_selected pr l && route_hostnames_intersect l.hostname route_hostnames && not (is_allowed l)

  unfoldable pub takes : Listener → Bool
  takes l = is_selected pr l && route_hostnames_intersect l.hostname route_hostnames && is_allowed l

  -- The most specific reason there is.
  unfoldable pub reason : List Listener → Rejection
  reason ls = worst (any refuses ls) (any mismatches ls)

  unfoldable pub taken_names : List Listener → List Bytes
  taken_names [] = []
  taken_names (l ∷ ls) = if takes l then l.name ∷ taken_names ls else taken_names ls

  examine_all_lem :
      (ls : List Listener) (allowed : List Bytes) (best : Rejection)
      → examine_all pr route_hostnames is_allowed ls (allowed, best)
        ≡ (allowed ++ taken_names ls, raised (reason ls) best)
  unfolding examine_all examine mismatches refuses takes taken_names reason
  examine_all_lem [] allowed best = rw (raised_none best, append-nil allowed)
  examine_all_lem (l ∷ ls) allowed best =
      let rest = examine_all_lem ls in
      elim (Bool-cases (is_none_or pr.section_name (λ section. bytes_eq section l.name))) [
        | inr h ↦ rw h (rest allowed best)
        | inl h ↦ elim (Bool-cases (is_none_or pr.port (λ port. int_beq port l.port))) [
          | inr i ↦ rw (h, i) (rest allowed best)
          | inl i ↦ elim (Bool-cases (route_hostnames_intersect l.hostname route_hostnames)) [
            | inr j ↦
                rw (h, i, j)
                  (rest allowed (raised no_matching_listener_hostname best)
                    ∙ ap (λ x. (allowed ++ taken_names ls, x))
                        (raised_mismatched (any refuses ls) (any mismatches ls) best))
            | inl j ↦ elim (Bool-cases (is_allowed l)) [
              | inr k ↦
                  rw (h, i, j, k)
                    (rest allowed (raised not_allowed_by_listeners best)
                      ∙ ap (λ x. (allowed ++ taken_names ls, x))
                          (raised_refused (any refuses ls) (any mismatches ls) best))
              | inl k ↦
                  rw (h, i, j, k)
                    (rest (allowed ++ l.name ∷ []) best
                      ∙ ap (λ x. (x, raised (reason ls) best))
                          (append_assoc allowed (l.name ∷ []) (taken_names ls)))
            ]
          ]
        ]
      ]

-- A route attaches through a parentRef to exactly the listeners that the reference names, whose hostname meets a
-- hostname of the route and which allow the route, in their order. If there is none, the answer is the most specific
-- reason: that a named listener with such a hostname refuses the route, else that a named one has another hostname,
-- else that none is named.
pub listeners_for_parent_ref-names :
    (pr : ParentRef) (ls : List Listener) (gateway_ns route_ns route_kind : Bytes)
    (hostnames : List Bytes) (labels : Map Bytes (Map Bytes Bytes))
    → let is_allowed =
        λ (l : Listener). is_route_allowed_by_listener l gateway_ns route_ns route_kind labels in
      listeners_for_parent_ref pr ls gateway_ns route_ns route_kind hostnames labels ≡ (
        if is_empty (taken_names pr hostnames is_allowed ls)
        then err (reason pr hostnames is_allowed ls)
        else ok (taken_names pr hostnames is_allowed ls))
unfolding listeners_for_parent_ref
listeners_for_parent_ref-names pr ls gateway_ns route_ns route_kind hostnames labels =
    let is_allowed : Listener → Bool =
      λ l. is_route_allowed_by_listener l gateway_ns route_ns route_kind labels in
    rw (
      examine_all_lem pr hostnames is_allowed ls [] no_matching_parent,
      raised_parent (reason pr hostnames is_allowed ls),
    )
