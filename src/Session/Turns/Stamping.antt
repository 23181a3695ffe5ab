-- ===== src/Session/Turns/Stamping.antt =====
-- What `_stamp_actions` of app/modules/session/router.py makes of the actions of a turn.
use grafux_orchestrator.Prelude.{
  String, ◌≡◌, refl, sym, ◌∙◌, ap, Bool, true, false, ◌&&◌, ◌==◌, Option, none, some, one_of, lower,
  strip, eq_iff, Bool-cases, inl, inr, if◌then◌else◌,
}
use mathlib.Core.Path.{subst}
use grafux_orchestrator.Python.{
  Value, null, flag, num, neg, real, text, arr, obj, Items, nil, cons, Fields, get, get_or, put,
  to_str,
}
use grafux_orchestrator.Python.Laws.{get-put}
use grafux_orchestrator.Exec.{Exec, pure, ◌>>=◌}
use grafux_orchestrator.Exec.Outcomes.{Yields, Yields-pure, Yields-raised, Yields-bind}
use grafux_orchestrator.Session.Turns.{
  Chat, Services, enrichers, is_enrichable, is_creation, default_action_id, stamp,
}
use grafux_orchestrator.Session.Turns.Loop.{stamp_action, stamp_items, stamp_actions}

abbrev pub or_given : Option Value → String → Value
or_given (some v) id = v
or_given none id = text id

-- What a key of a stamped action says: `pending` for an action that is to be enriched; the action's
-- own id, or the one that was made for it; and otherwise what the action says.
abbrev pub stamped_get : String → String → String → Fields → Option Value
stamped_get key id shown action =
    if is_enrichable (obj shown action) && ("pending" == key)
    then some (flag true)
    else if "action_id" == key
    then some (or_given (get "action_id" action) id)
    else get key action

-- A value of the list before and after: an action that creates a block is stamped, all else stays.
pub data IsStamped : Value → Value → Type 0 where
  kept : (v : Value) → is_creation v ≡ false → IsStamped v v
  created :
      (shown id : String) (action stamped : Fields)
      → is_creation (obj shown action) ≡ true
      → ((key : String) → get key stamped ≡ stamped_get key id shown action)
      → IsStamped (obj shown action) (obj shown stamped)

abbrev pub AreStamped : Items → Items → Type 0
AreStamped nil nil = Unit
AreStamped (cons v vs) (cons w ws) = IsStamped v w × AreStamped vs ws
AreStamped vs ws = ⊥

-- The actions that a turn sends, from those that it has parsed.
abbrev pub AreSent : Value → Value → Type 0
AreSent (arr shown vs) (arr other ws) = (shown ≡ other) × AreStamped vs ws
AreSent (arr shown vs) w = ⊥
AreSent v w = v ≡ w

own_id :
    (key : String) (action : Fields) (v : Value)
    → get "action_id" action ≡ some v
    → get key action ≡ (if "action_id" == key then some v else get key action)
own_id key action v e = elim (Bool-cases ("action_id" == key)) [
  | inl same ↦ rw same (subst (λ k. get k action ≡ some v) ((eq_iff "action_id" key).0 same) e)
  | inr other ↦ rw other refl
]

default_action_id-by :
    (id : String) (action : Fields)
    → default_action_id id action ≡ (elim (get "action_id" action) [
      | none ↦ put "action_id" (text id) action
      | some v ↦ action
    ])
unfolding default_action_id
default_action_id-by id action = refl

get-default_action_id :
    (key id : String) (action : Fields)
    → get key (default_action_id id action)
      ≡ (if "action_id" == key then some (or_given (get "action_id" action) id) else get key action)
get-default_action_id key id action =
    by_id (get "action_id" action) (default_action_id id action) refl
      (default_action_id-by id action)
  where
    by_id :
        (o : Option Value) (named : Fields)
        → get "action_id" action ≡ o
        → named ≡ (elim o [ none ↦ put "action_id" (text id) action | some v ↦ action ])
        → get key named ≡ (if "action_id" == key then some (or_given o id) else get key action)
    by_id none named e h = ap (get key) h ∙ get-put "action_id" key (text id) action
    by_id (some v) named e h = ap (get key) h ∙ own_id key action v e

-- `is_enrichable`, by the two keys that it reads.
or_value : Value → Option Value → Value
or_value default none = default
or_value default (some v) = v

enrichable_by : Option Value → Option Value → Bool
unfolding or_value
enrichable_by kind block_type = elim (or_value null kind) [
  | text kind ↦
      if kind == "create_block"
      then one_of (lower (strip (to_str (or_value (text "") block_type)))) enrichers
      else false
  | v ↦ false
]

get_or-or_value :
    (key : String) (default : Value) (fs : Fields)
    → get_or key default fs ≡ or_value default (get key fs)
unfolding get_or or_value
get_or-or_value key default fs = refl

is_enrichable-by :
    (shown : String) (action : Fields)
    → is_enrichable (obj shown action) ≡ enrichable_by (get "type" action) (get "block_type" action)
unfolding is_enrichable get_or enrichable_by or_value
is_enrichable-by shown action = refl

default_action_id-enrichable :
    (shown id : String) (action : Fields)
    → is_enrichable (obj shown (default_action_id id action)) ≡ is_enrichable (obj shown action)
default_action_id-enrichable shown id action =
    let named = default_action_id id action in
    is_enrichable-by shown named
    ∙ ap (λ o. enrichable_by o (get "block_type" named)) (get-default_action_id "type" id action)
    ∙ ap (enrichable_by (get "type" action)) (get-default_action_id "block_type" id action)
    ∙ sym (is_enrichable-by shown action)

get-stamp :
    (key id shown : String) (action : Fields) (enriched : Bool)
    → is_enrichable (obj shown action) ≡ enriched
    → get key (
        if enriched
        then put "pending" (flag true) (default_action_id id action)
        else default_action_id id action)
      ≡ stamped_get key id shown action
get-stamp key id shown action true e = rw e (
    rw (get-put "pending" key (flag true) (default_action_id id action)) (
      ap (λ o. if "pending" == key then some (flag true) else o)
        (get-default_action_id key id action)))
get-stamp key id shown action false e = rw e (get-default_action_id key id action)

stamp-IsStamped : (id : String) (v : Value) → is_creation v ≡ true → IsStamped v (stamp id v)
unfolding stamp is_creation
stamp-IsStamped id (obj shown action) e = created shown id action _ e (λ key.
    rw (default_action_id-enrichable shown id action)
      (get-stamp key id shown action (is_enrichable (obj shown action)) refl))
stamp-IsStamped id null e = absurd cc
stamp-IsStamped id (flag b) e = absurd cc
stamp-IsStamped id (num n) e = absurd cc
stamp-IsStamped id (neg n) e = absurd cc
stamp-IsStamped id (real x y) e = absurd cc
stamp-IsStamped id (text x) e = absurd cc
stamp-IsStamped id (arr x vs) e = absurd cc

module _ {W : Type 0} (services : Services W) where
  stamp_action-Yields : (v : Value) → Yields (IsStamped v) (stamp_action services v)
  unfolding stamp_action
  stamp_action-Yields v = record {
    at = λ s w e. elim (Bool-cases (is_creation v)) [
      | inl h ↦
          let id = (services.new_id s.world).0 in
          let made = (rw h at e) in
          let same : stamp id v ≡ w = cc in subst (IsStamped v) same (stamp-IsStamped id v h)
      | inr h ↦
          let made = (rw h at e) in let same : v ≡ w = cc in subst (IsStamped v) same (kept v h)
    ];
  }

  stamp_items-Yields : (vs : Items) → Yields (AreStamped vs) (stamp_items services vs)
  unfolding stamp_items
  stamp_items-Yields nil = Yields-pure nil tt
  stamp_items-Yields (cons v vs) =
      let whole : Value → Items → Exec (Chat W) Items =
        λ stamped items. pure (cons stamped items) in
      Yields-bind (IsStamped v) (stamp_action services v)
        (λ stamped. stamp_items services vs >>= whole stamped) (stamp_action-Yields v)
        (λ stamped h.
          Yields-bind (AreStamped vs) (stamp_items services vs) (whole stamped)
            (stamp_items-Yields vs) (λ items hs. Yields-pure (cons stamped items) (h, hs)))

  pub stamp_actions-Yields : (v : Value) → Yields (AreSent v) (stamp_actions services v)
  unfolding stamp_actions
  stamp_actions-Yields (arr shown vs) =
      let whole : Items → Exec (Chat W) Value = λ stamped. pure (arr shown stamped) in
      Yields-bind (AreStamped vs) (stamp_items services vs) whole (stamp_items-Yields vs)
        (λ ws hs. Yields-pure (arr shown ws) (refl, hs))
  stamp_actions-Yields (text x) = Yields-pure (text x) refl
  stamp_actions-Yields (obj shown fs) = Yields-pure (obj shown fs) refl
  stamp_actions-Yields null = Yields-raised _
  stamp_actions-Yields (flag b) = Yields-raised _
  stamp_actions-Yields (num n) = Yields-raised _
  stamp_actions-Yields (neg n) = Yields-raised _
  stamp_actions-Yields (real x y) = Yields-raised _
