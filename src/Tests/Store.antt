-- ===== src/Tests/Store.antt =====
-- A table of one QSO with its queued uploads, an import, and a line of the DX cluster.
use w4gns_logger4men.Base.{
  inl, ℕ, zero, suc, ◌+◌, ◌-◌, ◌*◌, ◌/◌, ◌^◌, ◌≡◌, ◌↔◌, refl, Bool, true, ◌&&◌, ◌||◌, none, some,
  List, [], ◌∷◌, arith, ltb, nat_beq, if◌then◌else◌, length,
}
use w4gns_logger4men.Text.{Text, codes, is_empty}
use w4gns_logger4men.Contest.Types.{Qso}
use w4gns_logger4men.Outbox.{Row, qrz, wrl, minute, second, enqueue_upload}
use w4gns_logger4men.Outbox.Live.{claim_due_uploads-live}
use w4gns_logger4men.Validation.Storable.{IsStorable}
use w4gns_logger4men.Validation.Stored.{validate_qso-IsStorable}
use w4gns_logger4men.Store.{Services, Database}
use w4gns_logger4men.Store.Transaction.{Holds}
use w4gns_logger4men.Store.Atomic.{IsInserted, insert_qso_with_uploads_lem}
use w4gns_logger4men.Store.Delete.{IsDeleted, delete_qso_lem}
use w4gns_logger4men.Store.Import.Again.{AllImported}
use w4gns_logger4men.Store.Import.Batch.{insert_qso_batch-AllImported, insert_qso_batch_again}
use w4gns_logger4men.Store.Dupe.Scopes.{
  FindsPrefix, session, question_of, ask, session_scope, band_scope, call_scope, is_dupe_nested,
}
use w4gns_logger4men.Store.Dupe.Logged.{is_dupe_of_logged, is_dupe_without_logged}
use w4gns_logger4men.Store.Links.{IsLinked}
use w4gns_logger4men.Store.Links.Run.{Operation, log_qso, delete, operate_all-IsLinked}
use w4gns_logger4men.Cluster.Printable.{AllShown, parse_cluster_spot-AllShown}
use w4gns_logger4men.Tests.Contest.{blank_qso, country_file}
use w4gns_logger4men.Text.{
  text_eq, is_space, upper_byte, to_upper, trim_left, trim_right, trim_space, clean, equal_fold,
  fields, has_prefix, contains_text, last_or, in_table,
}
use w4gns_logger4men.Text.Numeral.{digits_value, unsigned, atoi, positive}
use w4gns_logger4men.Base.Eq.{list_beq}
use w4gns_logger4men.Validation.{
  Floats, amateur_bands, find_band, band_row, band_allowed, is_likely_cw_frequency, check_range,
  validate_band_frequency, all_call_chars, valid_callsign_chars, grid_pairs, grid_field,
  is_grid_square, check_calls, check_band, check_times, validate_qso,
}
use w4gns_logger4men.Store.{
  pota_signal, dxcc_context, prefer_number, resolve_dxcc, stored_qso, count_qsos,
}
use w4gns_logger4men.Store.Insert.{
  flag_qso, insert_qso_into, bind_upload, bind_destination, enqueue_all, schedule_uploads,
  insert_body, insert_checked, insert_qso_with_uploads, insert_qso,
}
use w4gns_logger4men.Store.Change.{
  matching, remove_rows, remove_uploads, some_row, delete_body, delete_qso, flag_rows,
  set_qso_unscored, edit_row, edit_rows, call_band_of, unlink, same_contact, update_body,
  update_checked, update_qso,
}
use w4gns_logger4men.Store.Import.{
  is_import_of, is_imported, import_missing, import_records, chunk_body, first_invalid,
  chunk_checked, insert_qso_chunk, import_chunks, insert_qso_batch,
}
use w4gns_logger4men.Store.Dupe.{
  Question, occurrence, occurrence_column, in_event, in_scope, same_occurrence, is_match, any_match,
  is_dupe,
}
use w4gns_logger4men.Store.Queued.{is_queued}
use w4gns_logger4men.Store.Delete.{has_upload}
use w4gns_logger4men.Store.Always.{tables}
use w4gns_logger4men.Store.Links.{has_id}
use w4gns_logger4men.Store.Links.Run.{operate, operate_all}
use w4gns_logger4men.Cluster.{
  sanitize_cluster_text, trim_colon, join_fields, read_spot, spot_of_fields, parse_cluster_spot,
}
use w4gns_logger4men.Outbox.{
  is_key, find_row, add_missing, enqueue_upload, is_due, due_rows, order_due, entries_of,
  select_due, lease_row, lease_all, commit_claim, claim_due_uploads, mark_upload_done, double_delay,
  upload_backoff, reschedule, record_upload_failure,
}
use w4gns_logger4men.Outbox.Live.{has_key, awaits}
use w4gns_logger4men.Outbox.Claims.{has_entry, claimed_entries}

-- Decimals, in steps of 100 Hz, as the numbers of the band plan.
unfoldable fraction : ℕ → ℕ → Text → ℕ
fraction places n [] = n * 10 ^ places
fraction zero n (c ∷ s) = n
fraction (suc places) n (c ∷ s) = fraction places (n * 10 + (c - b'0')) s

unfoldable decimal : ℕ → Text → ℕ
unfolding fraction
decimal n [] = n * 10_000
decimal n (c ∷ s) = if nat_beq c b'.' then fraction 4 n s else decimal (n * 10 + (c - b'0')) s

abbrev decimals : Floats
decimals = record {
  Float = ℕ;
  parse_float = λ s. if is_empty s then none else some (decimal 0 s);
  constant = decimal 0;
  is_below = ltb;
  thousandth = λ n. n / 1_000;
}

-- LIKE for patterns whose "%" is behind everything else.
unfoldable like : Text → Text → Bool
like s [] = is_empty s
like [] (c ∷ p) = nat_beq c b'%'
like (d ∷ s) (c ∷ p) = nat_beq c b'%' || nat_beq d c && like s p

like_any : (s : Text) → like s (codes "%") ≡ true
unfolding like
like_any [] = refl
like_any (c ∷ s) = refl

like-FindsPrefix : FindsPrefix like
unfolding like
like-FindsPrefix [] c s = ground (arith, like_any s)
like-FindsPrefix (d ∷ p) c s = ground (arith, like-FindsPrefix p c s)

abbrev services : Services
services = record { lookup = country_file; floats = decimals; like = like }

abbrev logged : Qso
logged = record blank_qso {
  call = codes "DL1ABC";
  band = codes "20M";
  frequency = codes "14.025";
  grid = codes "JO62";
  contest_id = codes "CWT-1900";
  time = 60 * second;
  time_off = 61 * second;
}

abbrev empty_database : Database
empty_database = record { log = []; next_id = 1; outbox = []; confirmed = [] }

abbrev yes_answers : List Bool
yes_answers = true ∷ true ∷ true ∷ true ∷ true ∷ true ∷ true ∷ true ∷ []

store_run : Unit {0}
unfolding is_space upper_byte to_upper trim_left trim_right trim_space clean equal_fold fields
    has_prefix contains_text last_or in_table digits_value unsigned atoi positive list_beq
    amateur_bands find_band band_row band_allowed is_likely_cw_frequency check_range
    validate_band_frequency all_call_chars valid_callsign_chars grid_pairs grid_field is_grid_square
    check_calls check_band check_times validate_qso pota_signal dxcc_context prefer_number
    resolve_dxcc stored_qso count_qsos flag_qso insert_qso_into bind_upload bind_destination
    enqueue_all schedule_uploads insert_body insert_checked insert_qso_with_uploads insert_qso
    matching remove_rows remove_uploads some_row delete_body delete_qso flag_rows set_qso_unscored
    edit_row edit_rows call_band_of unlink same_contact update_body update_checked update_qso
    is_import_of is_imported import_missing import_records chunk_body first_invalid chunk_checked
    insert_qso_chunk import_chunks insert_qso_batch occurrence occurrence_column in_event in_scope
    same_occurrence is_match any_match is_dupe is_queued has_upload tables has_id operate
    operate_all sanitize_cluster_text trim_colon join_fields read_spot spot_of_fields
    parse_cluster_spot is_key find_row add_missing enqueue_upload is_due due_rows order_due
    entries_of select_due lease_row lease_all commit_claim claim_due_uploads mark_upload_done
    double_delay upload_backoff reschedule record_upload_failure has_key awaits has_entry
    claimed_entries fraction decimal like
store_run = tt

validate_qso-IsStorable_example : (validate_qso decimals logged ≡ none) ↔ IsStorable decimals logged
validate_qso-IsStorable_example = validate_qso-IsStorable decimals logged

-- The QSO is stored with its two uploads, and a failing statement leaves nothing.
inserts :
    (length
        (tables (
          insert_qso_with_uploads services logged
            (qrz ∷ wrl ∷ [])
            second
            second
            none
            yes_answers
            empty_database)).outbox
      ≡ 2)
    × (tables (
          insert_qso_with_uploads services logged
            (qrz ∷ wrl ∷ [])
            second
            second
            none
            (true ∷ true ∷ true ∷ [])
            empty_database)
        ≡ empty_database)
unfolding store_run
inserts = (refl, refl)

-- The tables behind that insert.
abbrev one_qso : Database
one_qso = tables (
    insert_qso_with_uploads services logged (qrz ∷ wrl ∷ []) second second none yes_answers
      empty_database)

insert_qso_with_uploads_lem_example :
    Holds
      (IsInserted services logged (qrz ∷ wrl ∷ []) empty_database)
      (λ new. new ≡ empty_database)
      (insert_qso_with_uploads services logged
        (qrz ∷ wrl ∷ [])
        second
        second
        none
        yes_answers
        empty_database)
insert_qso_with_uploads_lem_example =
    insert_qso_with_uploads_lem services logged (qrz ∷ wrl ∷ []) second second none yes_answers
      empty_database tt

delete_qso_lem_example :
    Holds
      (λ _. IsDeleted 1 1 2 1 2 qrz one_qso)
      (λ new. new ≡ one_qso)
      (delete_qso 1 1 yes_answers one_qso)
delete_qso_lem_example = delete_qso_lem 1 1 2 1 2 qrz yes_answers one_qso refl refl

abbrev operations : List Operation
operations =
    log_qso logged (qrz ∷ wrl ∷ []) second second none yes_answers ∷ delete 1 1 yes_answers ∷ []

operate_all-IsLinked_example : IsLinked (operate_all services operations empty_database)
operate_all-IsLinked_example =
    operate_all-IsLinked services operations empty_database (record { below = tt; linked = tt })

insert_qso_batch-AllImported_example :
    Holds
      (λ _ new. AllImported (logged ∷ []) new.log)
      (λ _. Unit {0})
      (insert_qso_batch services (logged ∷ []) yes_answers empty_database)
insert_qso_batch-AllImported_example =
    insert_qso_batch-AllImported services (logged ∷ []) yes_answers empty_database

abbrev imported : Database
imported = tables (insert_qso_batch services (logged ∷ []) yes_answers empty_database)

insert_qso_batch_again_example :
    Holds
      (λ m again. (m ≡ 0) × (again ≡ imported))
      (λ again. again ≡ imported)
      (insert_qso_batch services (logged ∷ []) yes_answers imported)
unfolding store_run
insert_qso_batch_again_example =
    insert_qso_batch_again services (logged ∷ []) yes_answers yes_answers (true ∷ []) empty_database
      imported 1 refl

abbrev session_question : Question
session_question = question_of logged (codes "CWT") session_scope 0 (60 * second) 0

is_dupe_nested_example :
    (is_dupe like (ask band_scope session_question) one_qso.log ≡ some true)
    × (is_dupe like (ask call_scope session_question) one_qso.log ≡ some true)
unfolding store_run
is_dupe_nested_example =
    is_dupe_nested like session_question one_qso.log like-FindsPrefix
      (session (codes "CWT") (codes "1900")) (inl refl)

is_dupe_of_logged_example :
    Holds
      (λ id new.
        is_dupe like (question_of logged (codes "CWT") session_scope 0 (60 * second) 0) new.log
        ≡ some true)
      (λ new. new ≡ empty_database)
      (insert_qso_with_uploads services logged
        (qrz ∷ [])
        second
        second
        none
        yes_answers
        empty_database)
unfolding store_run
is_dupe_of_logged_example =
    is_dupe_of_logged services logged (qrz ∷ []) second second none yes_answers empty_database
      (codes "CWT") session_scope 0 (60 * second) 0 tt like-FindsPrefix
      (session (codes "CWT") (codes "1900")) refl (omega arith) refl refl

is_dupe_without_logged_example :
    Holds
      (λ id new.
        is_dupe like (record session_question { exclude_id = id }) new.log
        ≡ is_dupe like (record session_question { exclude_id = 0 }) empty_database.log)
      (λ new. new ≡ empty_database)
      (insert_qso_with_uploads services logged
        (qrz ∷ [])
        second
        second
        none
        yes_answers
        empty_database)
is_dupe_without_logged_example =
    is_dupe_without_logged services logged (qrz ∷ []) second second none yes_answers empty_database
      session_question tt (omega arith)

abbrev cluster_line : Text
cluster_line = codes "DX de K3LR: 14025.0 dl1abc CQ TEST"

parse_cluster_spot-AllShown_example :
    AllShown (parse_cluster_spot cluster_line 1)
    × (sanitize_cluster_text (sanitize_cluster_text (27 ∷ cluster_line))
        ≡ sanitize_cluster_text (27 ∷ cluster_line))
parse_cluster_spot-AllShown_example = parse_cluster_spot-AllShown cluster_line (27 ∷ cluster_line) 1

abbrev due_queue : List Row
due_queue = enqueue_upload 7 1 qrz 0 0 []

claim_due_uploads-live_example :
    has_entry 7 qrz (
      claimed_entries
        (claim_due_uploads
          (record { begin = true; query = true; updates = true ∷ []; commit = true })
          second
          minute
          20
          due_queue).0)
    ≡ true
unfolding store_run
claim_due_uploads-live_example =
    claim_due_uploads-live 7 qrz
      (record { begin = true; query = true; updates = true ∷ []; commit = true }) second minute 20
      due_queue refl (omega arith) refl refl refl (refl, tt)
