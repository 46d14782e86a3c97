-- ===== src/Broker/Fetches.antt =====
-- Bind, when it succeeds: the credentials that it answers are those of the record, which GetBinding
-- and the same request answer again.
use osb_opengauss_go.Prelude.{
  ◌≡◌, sym, ap, ◌∙◌, true, ◌&&◌, Option, some, Text, codes, ◌++◌, text_eq,
}
use osb_opengauss_go.Result.{ok}
use osb_opengauss_go.World.{World}
use osb_opengauss_go.Params.{BindingParams}
use osb_opengauss_go.State.{
  InstanceRecord, BindingRecord, BindingInfo, get_row, read_binding, get_instance, get_binding,
}
use osb_opengauss_go.State.Rows.{get_row-ok}
use osb_opengauss_go.State.Credentials.{IsReadable}
use osb_opengauss_go.Table.{IsTable}
use osb_opengauss_go.Broker.{Broker, Binding, BindingDetails, Details}
use osb_opengauss_go.Broker.Handlers.{bind_over, bind, fetch_binding}
use osb_opengauss_go.Broker.Answers.{behind_instance, spec_of, bind_admitted, bind-Answers}

module _ {F I B S R : Type 0} (b : Broker F I B S R) (row : B → Text → Option BindingRecord)
    (laws : IsTable (λ r. r.binding_id) (λ r. r.instance_id) row b.store.bindings)
    (readable : IsReadable b.store) (instance_id binding_id : Text) (d : Details) where
  get_binding_seen :
      (w : World I B S R) (found o : Option BindingRecord) (i : Option BindingInfo)
      → (get_row b.store.bindings
          (codes "cannot read binding " ++ binding_id)
          binding_id
          w.bindings).0
        ≡ ok found
      → row w.bindings binding_id ≡ o
      → read_binding b.store o ≡ ok i
      → (get_binding b.store binding_id w).0 ≡ ok i
  unfolding get_binding
  get_binding_seen w found o i looked at read =
      let seen = sym (get_row-ok b.store.bindings laws binding_id _ w.bindings found looked) ∙ at in
      rw (looked, seen, read)

  fetch_found :
      (w : World I B S R) (info : BindingInfo)
      → (get_binding b.store binding_id w).0 ≡ ok (some info)
      → (fetch_binding b binding_id w).0
        ≡ ok (record { credentials = info.credentials; parameters = info.params })
  unfolding fetch_binding
  fetch_found w info h = rw h

  -- After a Bind that succeeds, in any later state with the same binding record under the id in which
  -- the lookup of the record succeeds, GetBinding succeeds, and answers the credentials that Bind
  -- answered.
  pub bind_fetched :
      (w later : World I B S R) (x : Binding) (found : Option BindingRecord)
      → (bind b instance_id binding_id d w).0 ≡ ok x
      → row later.bindings binding_id
        ≡ row (bind b instance_id binding_id d w).1.bindings binding_id
      → (get_row b.store.bindings
          (codes "cannot read binding " ++ binding_id)
          binding_id
          later.bindings).0
        ≡ ok found
      → (details : BindingDetails) × ((fetch_binding b binding_id later).0 ≡ ok details)
        × (details.credentials ≡ x.credentials)
  bind_fetched w later x found h still looked =
      let (i, params, a, answers) =
        bind-Answers b row laws readable instance_id binding_id d w x h in
      let seen = get_binding_seen later found _ (some answers.info) looked still answers.read in
      (
        record { credentials = answers.info.credentials; parameters = answers.info.params },
        fetch_found later answers.info seen,
        answers.answered,
      )

  again :
      (i : InstanceRecord) (spec : BindingParams) (info : BindingInfo) (w : World I B S R)
      → (text_eq info.instance_id instance_id && text_eq info.params.name spec.name) ≡ true
      → bind_over b instance_id binding_id i spec (some info) w
        ≡ (ok (record { already_exists = true; credentials = info.credentials }), w)
  unfolding bind_over
  again i spec info w same = rw same

  -- After a Bind that succeeds, in any later state with the same binding record under the id, in
  -- which the lookups of an instance under its id and of the binding record succeed, the same request
  -- succeeds: it answers that the binding exists, with the credentials that it answered before, and
  -- does nothing but the lookups.
  pub bind_repeated :
      (w later : World I B S R) (x : Binding) (j : InstanceRecord) (found : Option BindingRecord)
      → (bind b instance_id binding_id d w).0 ≡ ok x
      → (get_instance b.store instance_id later).0 ≡ ok (some j)
      → row (behind_instance b row laws readable instance_id binding_id d later).bindings binding_id
        ≡ row (bind b instance_id binding_id d w).1.bindings binding_id
      → (get_row b.store.bindings
          (codes "cannot read binding " ++ binding_id)
          binding_id
          (behind_instance b row laws readable instance_id binding_id d later).bindings).0
        ≡ ok found
      → bind b instance_id binding_id d later ≡ (
        ok (record { already_exists = true; credentials = x.credentials }),
        (get_binding b.store binding_id (get_instance b.store instance_id later).1).1,
      )
  bind_repeated w later x j found h known still looked =
      let (i, params, a, answers) =
        bind-Answers b row laws readable instance_id binding_id d w x h in
      let seen =
        get_binding_seen (behind_instance b row laws readable instance_id binding_id d later) found
          _ (some answers.info) looked still answers.read in
      bind_admitted b row laws readable instance_id binding_id d j params later (some answers.info)
        (record { service = a.service; known = known; parsed = a.parsed }) seen
      ∙ again j (spec_of b row laws readable instance_id binding_id d params) answers.info _
          answers.asked
      ∙ ap
          (λ c. (
            ok (record { already_exists = true; credentials = c }),
            (get_binding b.store binding_id
                (behind_instance b row laws readable instance_id binding_id d later)).1,
          ))
          answers.answered
