-- ===== src/Tests/Runs/Catalogs.antt =====
-- The theorems about templates, batches and the rate limit loop, each at one concrete input.
use event_driven_notificatio.Prelude.{
  ◌≡◌, ◌≢◌, ◌≤◌, ◌⊎◌, refl, leb, length, any, none, some, List, [], ◌∷◌, is_ok, false,
  if◌then◌else◌, arith,
}
use event_driven_notificatio.Prelude.Text.{str, same}
use event_driven_notificatio.Domain.{
  CreateTemplateRequest, UpdateTemplateRequest, BatchCreateRequest, channel_email, channel_valid,
  queued,
}
use event_driven_notificatio.Services.{Services}
use event_driven_notificatio.Repository.Templates.{
  is_template, refers_to, update_template, delete_template,
}
use event_driven_notificatio.Repository.Catalog.{IsLinked}
use event_driven_notificatio.Repository.Sql.{has_template}
use event_driven_notificatio.Repository.TemplateEdits.{Updates}
use event_driven_notificatio.Repository.TemplateStore.{
  Refused, Deleted, Missing, update_template_decides, delete_template_decides,
}
use event_driven_notificatio.Service.Batches.{create_all}
use event_driven_notificatio.Service.AllOrNone.{WholeOrNone, create_all-WholeOrNone}
use event_driven_notificatio.Worker.Dispatcher.{waiting, process_all}
use event_driven_notificatio.Worker.Waiting.{process_all-ends}
use event_driven_notificatio.System.Runs.{
  Operation, serves, batches, adds_template, edits_template, drops_template, handles, run,
}
use event_driven_notificatio.System.References.{run-IsLinked}
use event_driven_notificatio.Tests.Environment.{steady, failing}
use event_driven_notificatio.Tests.Runs.{runs, welcome, world, dispatcher, message}
use event_driven_notificatio.Tests.Runs.Requests.{service, request}

abbrev pub rename : UpdateTemplateRequest
rename = record { name = some (str "hello"); channel = none; subject = none; body = none }

abbrev goodbye : CreateTemplateRequest
goodbye = record { name = str "goodbye"; channel = channel_email; subject = []; body = str "Bye" }

abbrev pair : BatchCreateRequest
pair = record { notifications = request ∷ record request { idempotency_key = str "order-44" } ∷ [] }

abbrev editing : List Operation
editing =
    adds_template goodbye
    ∷ batches service pair
    ∷ edits_template 3 rename
    ∷ serves service request
    ∷ drops_template 3
    ∷ handles dispatcher message 7
    ∷ []

run-IsLinked_example : IsLinked (run steady editing (world queued 0)).db
unfolding any has_template channel_valid same
run-IsLinked_example =
    run-IsLinked steady editing (world queued 0) ((refl, refl, refl, tt), (refl, tt))

create_all-WholeOrNone_example :
    (((is_ok (create_all failing service pair (world queued 0)).0 ≡ false)
        × ((create_all failing service pair (world queued 0)).1.db ≡ (world queued 0).db))
      ⊎ ((length pair.notifications ≤ 1000)
          × WholeOrNone failing service pair.notifications
              (world queued 0).db
              (create_all failing service pair (world queued 0))))
create_all-WholeOrNone_example = create_all-WholeOrNone failing service pair (world queued 0)

update_template_decides_example :
    Updates steady
      (λ k. refl)
      3
      rename
      welcome
      (update_template steady 3 rename (world queued 0))
      (world queued 0)
unfolding runs
update_template_decides_example =
    update_template_decides steady (λ k. refl) 3 rename welcome (world queued 0) refl

delete_template_decides_example :
    if any (is_template 3) (world queued 0).db.templates
    then (if any (refers_to 3) (world queued 0).db.notifications
        then Refused steady (λ k. refl) (delete_template steady 3 (world queued 0)) (world queued 0)
        else Deleted steady
            (λ k. refl)
            3
            (delete_template steady 3 (world queued 0))
            (world queued 0))
    else Missing steady (λ k. refl) (delete_template steady 3 (world queued 0)) (world queued 0)
delete_template_decides_example = delete_template_decides steady (λ k. refl) 3 (world queued 0)

-- An environment whose context is done from the ninth call on.
abbrev stopping : Services
stopping = record steady { cancelled = λ n. leb 8 n }

process_all-ends_example :
    (process_all stopping dispatcher 9 (message ∷ message ∷ []) (world queued 0)).0 ≢ waiting
process_all-ends_example =
    process_all-ends stopping dispatcher 8 (λ k past. ground arith) 9 (omega arith)
      (message ∷ message ∷ []) (world queued 0)
