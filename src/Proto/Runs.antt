-- ===== src/Proto/Runs.antt =====
-- Sequences of visits.
use tenancit.Base.{
  ◌≡◌, inl, inr, sym, subst, Bool, true, List, [], ◌∷◌, all, none, some, All, arith, trim,
}
use tenancit.Proto.Store.{Store, Platform, opened, page_of, seed}
use tenancit.Proto.Ids.{Numerals}
use tenancit.Proto.Unique.{IsNumberedStore}
use tenancit.Proto.Keeping.{
  update_tenant-IsNumberedStore, add_domain-IsNumberedStore, add_resource-IsNumberedStore,
}
use tenancit.Proto.Acts.{perform-IsNumberedStore, page-IsNumberedStore, opened-none}
use tenancit.Proto.OneActive.{OnePerKind, save_resource-cases, save_resource-OnePerKind}
use tenancit.Proto.Visits.{
  Visit, is_plain, act, edit_form, resource_form, domain_form, page_step, page_run,
}
use tenancit.Proto.Kinds.{seed-OnePerKind}
use tenancit.Proto.Orderly.{
  IsOrderly, save_edit-cases, save_domain-cases, update-IsOrderly, add_domain-IsOrderly,
  perform-IsOrderly,
}

module _ (p : Platform) (w : Bool) where
  page_step-IsOrderly :
      (numerals : Numerals p) (v : Visit) (s : Store)
      → is_plain v ≡ true
      → IsNumberedStore p numerals s
      → IsOrderly p w s
      → IsOrderly p w (page_step p w v s)
  unfolding page_step
  page_step-IsOrderly numerals (act a) s plain h one = perform-IsOrderly p w a s plain one
  page_step-IsOrderly numerals (resource_form i k v) s plain h one =
      save_resource-OnePerKind p numerals w i k v s h one
  page_step-IsOrderly numerals (edit_form i n g o) s plain h one =
      elim (save_edit-cases p w i n g o s) [
        | inl same ↦ subst (IsOrderly p w) (sym same) one
        | inr (j, e) ↦ subst (IsOrderly p w) (sym e) (update-IsOrderly p w j n g o s one)
      ]
  page_step-IsOrderly numerals (domain_form i o) s plain h one =
      elim (save_domain-cases p w i o s) [
        | inl same ↦ subst (IsOrderly p w) (sym same) one
        | inr (j, e) ↦ subst (IsOrderly p w) (sym e) (add_domain-IsOrderly p w j (trim o) s one)
      ]

  page_step-IsNumberedStore :
      (numerals : Numerals p) (v : Visit) (s : Store)
      → IsNumberedStore p numerals s
      → IsNumberedStore p numerals (page_step p w v s)
  unfolding page_step
  page_step-IsNumberedStore numerals (act a) s h = perform-IsNumberedStore p numerals w a s h
  page_step-IsNumberedStore numerals (resource_form i k v) s h =
      elim (save_resource-cases p numerals w i k v s) [
        | inl same ↦ subst (IsNumberedStore p numerals) (sym same) h
        | inr (t, d, _, _, e) ↦
            subst (IsNumberedStore p numerals) (sym e)
              (add_resource-IsNumberedStore p numerals w t.id d v s h)
      ]
  page_step-IsNumberedStore numerals (edit_form i n g o) s h =
      elim (save_edit-cases p w i n g o s) [
        | inl same ↦ subst (IsNumberedStore p numerals) (sym same) h
        | inr (j, e) ↦
            subst (IsNumberedStore p numerals) (sym e)
              (update_tenant-IsNumberedStore p numerals w j n g o s h)
      ]
  page_step-IsNumberedStore numerals (domain_form i o) s h = elim (save_domain-cases p w i o s) [
    | inl same ↦ subst (IsNumberedStore p numerals) (sym same) h
    | inr (j, e) ↦
        subst (IsNumberedStore p numerals) (sym e)
          (add_domain-IsNumberedStore p numerals w j (trim o) s h)
  ]

module _ (p : Platform) (numerals : Numerals p) where
  page_run-IsOrderly :
      (visits : List (Bool × Visit)) (s : Store)
      → all (λ v. is_plain v.1) visits ≡ true
      → IsNumberedStore p numerals s
      → All OnePerKind s.state.tenants
      → All OnePerKind (page_run p visits s).state.tenants
  unfolding page_run
  page_run-IsOrderly [] s plain h one = one
  page_run-IsOrderly ((w, v) ∷ rest) s plain h one =
      let here : is_plain v ≡ true = ground arith in
      page_run-IsOrderly rest (page_step p w v s) (ground arith)
        (page_step-IsNumberedStore p w numerals v s h)
        (page_step-IsOrderly p w numerals v s here h one)

  -- A page opens without a stored state, and in it every tenant has at most one active resource of
  -- each definition, after every sequence of visits in which no switch of a resource's status
  -- stands and resources are added by the form. It is said of a platform that writes different
  -- numbers as different texts without a dash.
  pub page_run-OnePerKind :
      (visits : List (Bool × Visit)) (readable : Bool)
      → all (λ v. is_plain v.1) visits ≡ true
      → (s : Store) × (opened p readable none ≡ some s)
        × All OnePerKind (page_run p visits s).state.tenants
  page_run-OnePerKind visits readable plain = (
    page_of seed none,
    opened-none p readable,
    page_run-IsOrderly visits (page_of seed none) plain (page-IsNumberedStore p numerals)
        seed-OnePerKind,
  )
