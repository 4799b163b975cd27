-- ===== src/Waivers/Bound.antt =====
-- A registry that is accepted binds each golden waiver to its locked values.
use nscscc_cpu.Base.{
  true, false, String, [], ◌∷◌, elem, any, all, all_mono, same_set, ◌≡◌, refl, ap, sym, ◌∙◌,
  and-true_parts, pos,
}
use nscscc_cpu.Result.{ok, require, >>=-returns, require-eq-ok, ok-injective}
use nscscc_cpu.Json.{Json, int, arr, obj, Fields, Items, items, keys, get, py_eq}
use nscscc_cpu.Waivers.{
  expected_waivers, expected_ids, no_waivers, accept_waivers, sorted_by_id, insert_by_id,
  WaiverReport, waiver_document, waiver_list, read_waivers, validate_waivers, waiver_scope,
}
use nscscc_cpu.Waivers.Registered.{
  on_fields, on_entry, entry_holds, read_waivers-any, read_waivers-is_consistent,
}
use nscscc_cpu.Waivers.Entries.{binds, is_stray, accept_waivers-all, not_stray}

waiver_document-eq-ok :
    (value : Json) (document : Fields) → waiver_document value ≡ ok document → value ≡ obj document
waiver_document-eq-ok (obj fields) document h =
    let (_, _, e) =
      >>=-returns
        (require (same_set (keys fields) ("schema_version" ∷ "waivers" ∷ []))
          "lint waiver document must contain schema_version and waivers")
        _ h in
    ap obj (ok-injective fields document e)
waiver_document-eq-ok _ document h = cc

waiver_list-eq-ok :
    (document : Fields) (value : Json) (waivers : Items)
    → waiver_list document value ≡ ok waivers
    → value ≡ arr waivers
waiver_list-eq-ok document (arr xs) waivers h =
    let (_, _, e) =
      >>=-returns
        (require (py_eq (get "schema_version" document) (int (pos 1)))
          "lint waiver schema_version/waivers is invalid")
        _ h in
    ap arr (ok-injective xs waivers e)
waiver_list-eq-ok document _ waivers h = cc

-- A registry file that validate_waivers accepts is an object whose list of waivers has, for each
-- expected golden waiver, an entry with its id, its locked values, a reason and an expiry
-- condition, and no other entry of the golden scope; the report lists the expected waivers.
pub validate_waivers-bound :
    (path sha256 : String) (value : Json) (report : WaiverReport)
    → validate_waivers path sha256 value ≡ ok report
    → (document : Fields) × (waivers : Items) × (value ≡ obj document)
      × (get "waivers" document ≡ arr waivers)
      × (all (λ w. any (on_fields (binds w)) (items waivers)) expected_waivers ≡ true)
      × (any (on_fields is_stray) (items waivers) ≡ false)
      × (report.accepted ≡ expected_waivers)
unfolding validate_waivers sorted_by_id insert_by_id
validate_waivers-bound path sha256 value report h =
    let (document, e1, h1) = >>=-returns (waiver_document value) _ h in
    let (waivers, e2, h2) = >>=-returns (waiver_list document (get "waivers" document)) _ h1 in
    let (r, e3, h3) = >>=-returns (read_waivers no_waivers (items waivers)) _ h2 in
    let (_, e4, h4) =
      >>=-returns (require (same_set r.scoped_ids expected_ids) "golden div waiver set drifted") _
        h3 in
    let (accepted, e5, h5) = >>=-returns (accept_waivers r expected_waivers) _ h4 in
    let (scoped, _) =
      and-true_parts (all (λ x. elem x expected_ids) r.scoped_ids) _
        (require-eq-ok (same_set r.scoped_ids expected_ids) "golden div waiver set drifted" e4) in
    let consistent = read_waivers-is_consistent no_waivers r (items waivers) refl e3 in
    let (entries, _) = and-true_parts (all (entry_holds r.scoped_ids) r.by_id) _ consistent in
    let (bound, same) = accept_waivers-all r expected_waivers accepted consistent e5 in
    (
      document,
      waivers,
      waiver_document-eq-ok value document e1,
      waiver_list-eq-ok document (get "waivers" document) waivers e2,
      all_mono (λ w. any (on_entry (binds w)) r.by_id)
          (λ w. any (on_fields (binds w)) (items waivers))
          (λ w t. sym (read_waivers-any (binds w) no_waivers r (items waivers) e3) ∙ t)
          expected_waivers bound,
      sym (read_waivers-any is_stray no_waivers r (items waivers) e3)
          ∙ not_stray r.scoped_ids r.by_id scoped entries,
      ap (λ (q : WaiverReport). q.accepted)
            (sym (
              ok-injective
                (record {
                  path = path;
                  sha256 = sha256;
                  scope = waiver_scope;
                  accepted = sorted_by_id accepted;
                })
                report h5))
          ∙ ap sorted_by_id same,
    )
