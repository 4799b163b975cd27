-- ===== src/Tests/Waivers.antt =====
-- A registry of waivers that is accepted, and a document that is none.
use nscscc_cpu.Base.{String, true, false, all, any, ◌≡◌, refl, pos, ℕ}
use nscscc_cpu.Result.{ok, NoEscape}
use nscscc_cpu.Json.{
  Json, int, str, arr, obj, Items, nil, cons, items, Fields, end, field, get, lookup, py_eq, null,
}
use nscscc_cpu.Waivers.{
  expected_waivers, waiver_scope, WaiverReport, validate_waivers, read_waivers, read_waiver, find,
  check_locked, accept_waiver, accept_waivers, sorted_by_id, insert_by_id,
}
use nscscc_cpu.Waivers.Registered.{on_fields}
use nscscc_cpu.Waivers.Entries.{binds, is_stray}
use nscscc_cpu.Waivers.Bound.{validate_waivers-bound}
use nscscc_cpu.Waivers.Caught.{validate_waivers-caught}

abbrev entry_of : String → String → ℕ → Json
entry_of name rule line = obj (
    field "id" (str name) (
      field "rule" (str rule) (
        field "file" (str "a158aa8ab4d49cece1a0fe488d7ac7dc02bd8cf6:rtl/div.v") (
          field "line" (int (pos line)) (
            field "source_sha256"
              (str "7e499f4c43c92154d1d4e21be2f269ac140b4f2b2d944677c71f6f4213b66dc6")
              (field "scope" (str waiver_scope) (
                field "reason" (str "kept") (
                  field "owner" (str "verification")
                    (field "expires_when" (str "never") end)))))))))

abbrev golden_entries : Items
golden_entries = cons (entry_of "golden-div-remainder-extension-bit-unused" "UNUSEDSIGNAL" 85) (
    cons (entry_of "golden-div-count-index-width" "WIDTHTRUNC" 82)
      (cons (entry_of "golden-div-quotient-extension-bit-unused" "UNUSEDSIGNAL" 85) nil))

abbrev golden_document : Fields
golden_document = field "schema_version" (int (pos 1)) (field "waivers" (arr golden_entries) end)

abbrev golden_report : WaiverReport
golden_report = record {
  path = "waivers.json";
  sha256 = "00";
  scope = waiver_scope;
  accepted = expected_waivers;
}

golden_accepted : validate_waivers "waivers.json" "00" (obj golden_document) ≡ ok golden_report
unfolding validate_waivers read_waivers read_waiver find check_locked accept_waiver accept_waivers
    sorted_by_id insert_by_id get lookup py_eq
golden_accepted = refl

golden_bound :
    (document : Fields) × (waivers : Items) × (obj golden_document ≡ obj document)
    × (get "waivers" document ≡ arr waivers)
    × (all (λ w. any (on_fields (binds w)) (items waivers)) expected_waivers ≡ true)
    × (any (on_fields is_stray) (items waivers) ≡ false)
    × (golden_report.accepted ≡ expected_waivers)
golden_bound =
    validate_waivers-bound "waivers.json" "00" (obj golden_document) golden_report golden_accepted

null_waivers : NoEscape (validate_waivers "waivers.json" "00" null)
null_waivers = validate_waivers-caught "waivers.json" "00" null
