-- ===== src/Service/Editing.antt =====
-- What the statements on templates keep, the template service keeps.
use event_driven_notificatio.Prelude.{ℕ, Bool-cases, inl, inr}
use event_driven_notificatio.Domain.{CreateTemplateRequest, UpdateTemplateRequest, channel_valid}
use event_driven_notificatio.Services.{Services, Database, W}
use event_driven_notificatio.Repository.Sql.{holds_if}
use event_driven_notificatio.Repository.Keeping.{
  IsKeptByTemplates, create_template-keeps, update_template-keeps,
}
use event_driven_notificatio.Service.Templates.{to_template, create, update}

module _ (env : Services) (P : Database → Type 0) (kept : IsKeptByTemplates P) where
  pub added-keeps : (req : CreateTemplateRequest) (w : W env) → P w.db → P (create env req w).1.db
  unfolding create
  added-keeps req w h =
      let made = create_template-keeps env P kept (to_template req) w h in
      elim (Bool-cases (env.valid_template req)) [
        | inr invalid ↦ rw invalid h
        | inl valid ↦ elim (Bool-cases (channel_valid req.channel)) [
          | inr invalid ↦ rw (valid, invalid) h
          | inl ok_channel ↦ elim (Bool-cases (env.parse_template req.body)) [
            | inr invalid ↦ rw (valid, ok_channel, invalid) h
            | inl parsed ↦ rw (valid, ok_channel, parsed) made
          ]
        ]
      ]

  pub edited-keeps :
      (id : ℕ) (req : UpdateTemplateRequest) (w : W env) → P w.db → P (update env id req w).1.db
  unfolding update
  edited-keeps id req w h =
      let made = update_template-keeps env P kept id req w h in
      elim (Bool-cases (env.valid_template_update req)) [
        | inr invalid ↦ rw invalid h
        | inl valid ↦ elim (Bool-cases (holds_if req.body env.parse_template)) [
          | inr invalid ↦ rw (valid, invalid) h
          | inl parsed ↦ rw (valid, parsed) made
        ]
      ]
