-- ===== src/Service/Templates.antt =====
-- internal/service/template.go: `TemplateService` but for Render, which stands with its caller.
use event_driven_notificatio.Prelude.{not, if◌then◌else◌, ℕ, Result, ok, err}
use event_driven_notificatio.Prelude.State.{pure, ◌>>=◌}
use event_driven_notificatio.Domain.{
  Error, validation, invalid_channel, template_render, Template, CreateTemplateRequest,
  UpdateTemplateRequest, channel_valid,
}
use event_driven_notificatio.Services.{Services, Action}
use event_driven_notificatio.Repository.Sql.{holds_if}
use event_driven_notificatio.Repository.Templates.{create_template, update_template}

-- lines 34 to 39
abbrev pub to_template : CreateTemplateRequest → Template
to_template req = record {
  id = 0;
  name = req.name;
  channel = req.channel;
  subject = req.subject;
  body = req.body;
  created_at = 0;
  updated_at = 0;
}

abbrev pub created_or : Template → Result Error (Unit {0}) → Result Error Template
created_or t (ok u) = ok t
created_or t (err e) = err e

module _ (env : Services) where
  unfoldable pub create : CreateTemplateRequest → Action env (Result Error Template)
  create req =
      if not (env.valid_template req)
      then pure (err validation)
      else if not (channel_valid req.channel)
      then pure (err invalid_channel)
      else if not (env.parse_template req.body)
      then pure (err template_render)
      else (do (t, r) ← create_template env (to_template req); pure (created_or t r))

  unfoldable pub update : ℕ → UpdateTemplateRequest → Action env (Result Error Template)
  update id req =
      if not (env.valid_template_update req)
      then pure (err validation)
      else if not (holds_if req.body env.parse_template)
      then pure (err template_render)
      else update_template env id req
