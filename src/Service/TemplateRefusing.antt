-- ===== src/Service/TemplateRefusing.antt =====
-- What the template service has done to the tables where it reports an error and the calls are
-- answered.
use event_driven_notificatio.Prelude.{ℕ, ◌≡◌, refl, Bool-cases, inl, inr, Result, ok, err}
use event_driven_notificatio.Domain.{
  Error, Template, CreateTemplateRequest, UpdateTemplateRequest, channel_valid,
}
use event_driven_notificatio.Services.{Services, Database, W, answered}
use event_driven_notificatio.Repository.Sql.{holds_if}
use event_driven_notificatio.Repository.Templates.{create_template}
use event_driven_notificatio.Repository.Refusing.{
  Refuses, create_template-refuses, update_template-Refuses,
}
use event_driven_notificatio.Service.Templates.{to_template, created_or, create, update}

module _ (env : Services) (steady : (k : ℕ) → env.fault k ≡ answered) where
  created-Refuses :
      (t : Template) (r : Result Error (Unit {0})) (before : Database) (w : W env)
      → ((e : Error) → r ≡ err e → w.db ≡ before)
      → Refuses env before (created_or t r, w)
  created-Refuses t (ok u) before w h e told = cc
  created-Refuses t (err x) before w h e told = h x refl

  pub create-Refuses :
      (req : CreateTemplateRequest) (w : W env) → Refuses env w.db (create env req w)
  unfolding create
  create-Refuses req w =
      let made = create_template env (to_template req) w in
      let last =
        created-Refuses made.0.0 made.0.1 w.db made.1
          (λ e told. create_template-refuses env steady (to_template req) w e told) in
      elim (Bool-cases (env.valid_template req)) [
        | inr invalid ↦ rw invalid (λ e told. refl)
        | inl valid ↦ elim (Bool-cases (channel_valid req.channel)) [
          | inr invalid ↦ rw (valid, invalid) (λ e told. refl)
          | inl ok_channel ↦ elim (Bool-cases (env.parse_template req.body)) [
            | inr invalid ↦ rw (valid, ok_channel, invalid) (λ e told. refl)
            | inl parsed ↦ rw (valid, ok_channel, parsed) last
          ]
        ]
      ]

  pub update-Refuses :
      (id : ℕ) (req : UpdateTemplateRequest) (w : W env) → Refuses env w.db (update env id req w)
  unfolding update
  update-Refuses id req w =
      let last = update_template-Refuses env steady id req w in
      elim (Bool-cases (env.valid_template_update req)) [
        | inr invalid ↦ rw invalid (λ e told. refl)
        | inl valid ↦ elim (Bool-cases (holds_if req.body env.parse_template)) [
          | inr invalid ↦ rw (valid, invalid) (λ e told. refl)
          | inl parsed ↦ rw (valid, parsed) last
        ]
      ]
