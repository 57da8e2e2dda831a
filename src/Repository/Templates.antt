-- ===== src/Repository/Templates.antt =====
-- internal/repository/template.go: the statements on the table of templates and the methods of
-- `TemplateRepository`.
use event_driven_notificatio.Prelude.{
  ℕ, zero, suc, Bool, true, false, ◌&&◌, not, ◌==◌, if◌then◌else◌, Option, none, some, List, [],
  ◌∷◌, ◌++◌, Result, ok, err, map, find, any, select, length,
}
use event_driven_notificatio.Prelude.Text.{Str, str, same}
use event_driven_notificatio.Prelude.State.{pure, ◌>>=◌}
use event_driven_notificatio.Domain.{
  Error, not_found, duplicate, internal, Template, UpdateTemplateRequest, channel_valid,
}
use event_driven_notificatio.Services.{
  Services, TemplateRow, Row, Action, exec, read_rows, now, next_uuid,
}
use event_driven_notificatio.Repository.Rows.{nil_if_empty, or_empty, to_micros}
use event_driven_notificatio.Repository.Sql.{
  Statement, PgError, unique_violation, failure, order_by, update_where, holds_if,
}

abbrev pub is_template : ℕ → TemplateRow → Bool
is_template id t = t.id == id

abbrev pub is_named : Str → TemplateRow → Bool
is_named name t = same t.name name

unfoldable pub to_template_row : Template → TemplateRow
unfolding nil_if_empty to_micros
to_template_row t = record {
  id = t.id;
  name = t.name;
  channel = t.channel;
  subject = nil_if_empty t.subject;
  body = t.body;
  created_at = to_micros t.created_at;
  updated_at = to_micros t.updated_at;
}

unfoldable pub scan_template_row : TemplateRow → Template
unfolding or_empty
scan_template_row row = record {
  id = row.id;
  name = row.name;
  channel = row.channel;
  subject = or_empty row.subject;
  body = row.body;
  created_at = row.created_at;
  updated_at = row.updated_at;
}

-- Create: the channel is an enum, and IDs and names are unique.
unfoldable pub insert_template : TemplateRow → Statement (Unit {0})
insert_template row db =
    if not (channel_valid row.channel)
    then (err failure, db)
    else if any (is_template row.id) db.templates
    then (err (unique_violation (str "templates_pkey")), db)
    else if any (is_named row.name) db.templates
    then (err (unique_violation (str "templates_name_key")), db)
    else (ok tt, record db { templates = db.templates ++ row ∷ [] })

-- GetByID
unfoldable pub select_template : ℕ → Statement (Option TemplateRow)
select_template id db = (ok (find (is_template id) db.templates), db)

-- List, in the order of the collation
unfoldable pub select_templates : (Str → Str → Bool) → Statement (List TemplateRow)
select_templates collates db = (ok (order_by (λ a b. collates a.name b.name) db.templates), db)

abbrev pub or_kept {ℓ} : {A : Type ℓ} → Option A → A → A
or_kept none a = a
or_kept (some b) a = b

-- `if req.Subject != nil` of a column that may be NULL
abbrev pub or_kept_text : Option Str → Option Str → Option Str
or_kept_text none s = s
or_kept_text (some t) s = some t

-- The columns that Update sets.
unfoldable pub set_template : UpdateTemplateRequest → ℕ → TemplateRow → TemplateRow
set_template req now row = record row {
  name = or_kept req.name row.name;
  channel = or_kept req.channel row.channel;
  subject = or_kept_text req.subject row.subject;
  body = or_kept req.body row.body;
  updated_at = now;
}

-- Does another template have the name that Update sets?
abbrev pub takes_name : ℕ → Str → TemplateRow → Bool
takes_name id name t = not (is_template id t) && is_named name t

-- What becomes of the row that Update finds.
unfoldable pub update_found :
    UpdateTemplateRequest → ℕ → ℕ → Option TemplateRow → Statement (Option TemplateRow)
unfolding set_template
update_found req time id none db = (ok none, db)
update_found req time id (some row) db =
    if holds_if req.name (λ name. not (any (takes_name id name) db.templates))
    then (
      ok (some (set_template req time row)),
      record db { templates = update_where (is_template id) (set_template req time) db.templates },
    )
    else (err (unique_violation (str "templates_name_key")), db)

-- Update: a text that is no channel is an error in any case.
unfoldable pub update_template_by_id :
    UpdateTemplateRequest → ℕ → ℕ → Statement (Option TemplateRow)
unfolding update_found
update_template_by_id req time id db =
    if holds_if req.channel channel_valid
    then update_found req time id (find (is_template id) db.templates) db
    else (err failure, db)

abbrev pub refers_to : ℕ → Row → Bool
refers_to id row = elim row.template_id [ none ↦ false | some t ↦ t == id ]

-- Delete: a template that a notification refers to stays. The result is `tag.RowsAffected()`.
unfoldable pub delete_template_by_id : ℕ → Statement ℕ
delete_template_by_id id db =
    if any (is_template id) db.templates && any (refers_to id) db.notifications
    then (err failure, db)
    else (
      ok (length (select (is_template id) db.templates)),
      record db { templates = select (λ t. not (is_template id t)) db.templates },
    )

-- The errors of Create and Update.
unfoldable pub template_error : PgError → Error
template_error (unique_violation name) = duplicate
template_error failure = internal

abbrev pub insert_result : Result PgError (Unit {0}) → Result Error (Unit {0})
insert_result (ok u) = ok tt
insert_result (err e) = err (template_error e)

-- What GetByID makes of the row.
unfoldable pub scan_template : Result PgError (Option TemplateRow) → Result Error Template
unfolding scan_template_row
scan_template (ok (some row)) = ok (scan_template_row row)
scan_template (ok none) = err not_found
scan_template (err e) = err internal

-- What Update makes of the row.
unfoldable pub scan_updated : Result PgError (Option TemplateRow) → Result Error Template
unfolding scan_template_row template_error
scan_updated (ok (some row)) = ok (scan_template_row row)
scan_updated (ok none) = err not_found
scan_updated (err e) = err (template_error e)

unfoldable pub delete_result : Result PgError ℕ → Result Error (Unit {0})
delete_result (ok zero) = err not_found
delete_result (ok (suc n)) = ok tt
delete_result (err e) = err internal

-- `len(setClauses) == 0`
unfoldable pub is_empty_update : UpdateTemplateRequest → Bool
is_empty_update req = elim req.name [
  | some name ↦ false
  | none ↦ elim req.channel [
    | some channel ↦ false
    | none ↦ elim req.subject [
      | some subject ↦ false
      | none ↦ elim req.body [ some body ↦ false | none ↦ true ]
    ]
  ]
]

module _ (env : Services) where
  unfoldable pub create_template : Template → Action env (Template × Result Error (Unit {0}))
  unfolding template_error
  create_template t = do
    created ← now env
    id ← next_uuid env
    let t' = record t { id = id; created_at = created; updated_at = created }
    r ← exec env failure (λ _. insert_template (to_template_row t'))
    pure (t', insert_result r)

  unfoldable pub get_template : ℕ → Action env (Result Error Template)
  unfolding scan_template
  get_template id = do r ← exec env failure (λ _. select_template id); pure (scan_template r)

  unfoldable pub scan_templates :
      Result PgError (List TemplateRow) → Action env (Result Error (List Template))
  scan_templates (err e) = pure (err internal)
  scan_templates (ok rows) = do read ← read_rows env rows; pure (ok (map scan_template_row read))

  unfoldable pub list_templates : Action env (Result Error (List Template))
  unfolding scan_templates
  list_templates = do r ← exec env failure (λ _. select_templates env.collates); scan_templates r

  unfoldable pub set_columns : ℕ → UpdateTemplateRequest → Action env (Result Error Template)
  unfolding scan_updated
  set_columns id req = do
    t ← now env
    r ← exec env failure (λ _. update_template_by_id req (to_micros t) id)
    pure (scan_updated r)

  unfoldable pub update_template : ℕ → UpdateTemplateRequest → Action env (Result Error Template)
  unfolding set_columns
  update_template id req = if is_empty_update req then get_template id else set_columns id req

  unfoldable pub delete_template : ℕ → Action env (Result Error (Unit {0}))
  unfolding delete_result
  delete_template id = do
    r ← exec env failure (λ _. delete_template_by_id id)
    pure (delete_result r)
