-- ===== src/Waivers.antt =====
-- `validate_waivers` of tools/div_diff.py, on the parsed registry.
pub mod Registered
pub mod Entries
pub mod Bound
pub mod Caught
use nscscc_cpu.Base.{
  ℕ, Bool, true, false, not, ◌&&◌, ◌||◌, String, str_eq, List, [], ◌∷◌, ◌++◌, Option, none, some,
  codes, elem, same_set, is_empty, is_nonblank, map, ltb, ◌==◌, if◌then◌else◌, pos,
}
use nscscc_cpu.Result.{Result, ok, err, refused, ◌>>=◌, ◌>>◌, require, refuse_if, key_error}
use nscscc_cpu.Json.{Json, int, str, arr, obj, Items, items, Fields, keys, get, py_eq, is_text}
use nscscc_cpu.Iteration.Require.{index}

-- An entry of EXPECTED_GOLDEN_WAIVERS.
pub record Waiver : Type 0 where
  pub waiver_id : String
  pub rule : String
  pub line : ℕ
  pub message : String

abbrev pub expected_waivers : List Waiver
expected_waivers =
    record {
      waiver_id = "golden-div-count-index-width";
      rule = "WIDTHTRUNC";
      line = 82;
      message = "Bit extraction of var[32:0] requires 6 bit index, not 8 bits.";
    }
    ∷ record {
      waiver_id = "golden-div-quotient-extension-bit-unused";
      rule = "UNUSEDSIGNAL";
      line = 85;
      message = "Bits of signal are not used: 'TmpS'[32]";
    }
    ∷ record {
      waiver_id = "golden-div-remainder-extension-bit-unused";
      rule = "UNUSEDSIGNAL";
      line = 85;
      message = "Bits of signal are not used: 'TmpR'[32]";
    }
    ∷ []

abbrev pub expected_ids : List String
expected_ids = map (λ (w : Waiver). w.waiver_id) expected_waivers

abbrev pub waiver_scope : String
waiver_scope = "golden_div_simulation_compile"

abbrev pub waiver_fields : List String
waiver_fields =
    "id" ∷ "rule" ∷ "file" ∷ "line" ∷ "source_sha256" ∷ "scope" ∷ "reason" ∷ "owner"
    ∷ "expires_when" ∷ []

-- `by_id` and `scoped_ids`.
pub record Registry : Type 0 where
  pub by_id : List (String × Fields)
  pub scoped_ids : List String

-- `by_id.get(waiver_id)`
unfoldable pub find : String → List (String × Fields) → Option Fields
find k [] = none
find k ((j, item) ∷ rest) = if str_eq j k then some item else find k rest

abbrev pub is_found : Option Fields → Bool
is_found none = false
is_found (some item) = true

abbrev pub is_registered : String → Registry → Bool
is_registered k r = is_found (find k r.by_id)

abbrev pub waiver_object : Json → Result Fields
waiver_object (obj item) = ok item
waiver_object _ = err (refused "lint waiver entry fields are invalid")

abbrev pub waiver_name : Json → Result String
waiver_name (str s) = do
  refuse_if (is_empty (codes s)) "lint waiver ids must be unique non-empty strings"
  ok s
waiver_name _ = err (refused "lint waiver ids must be unique non-empty strings")

abbrev pub is_scoped : Fields → Bool
is_scoped item = is_text waiver_scope (get "scope" item)

abbrev pub register : String → Fields → Registry → Registry
register name item r = record {
  by_id = r.by_id ++ (name, item) ∷ [];
  scoped_ids = if is_scoped item then name ∷ r.scoped_ids else r.scoped_ids;
}

-- The body of the loop over the waivers.
unfoldable pub read_waiver : Registry → Json → Result Registry
read_waiver r value = do
  item ← waiver_object value
  require (same_set (keys item) waiver_fields) "lint waiver entry fields are invalid"
  name ← waiver_name (get "id" item)
  refuse_if (is_registered name r) "lint waiver ids must be unique non-empty strings"
  ok (register name item r)

unfoldable pub read_waivers : Registry → List Json → Result Registry
read_waivers r [] = ok r
read_waivers r (value ∷ rest) = do next ← read_waiver r value; read_waivers next rest

-- `expected`, the fields that an accepted waiver must have.
abbrev pub locked_fields : Waiver → List (String × Json)
locked_fields w =
    ("rule", str w.rule)
    ∷ ("line", int (pos w.line))
    ∷ ("file", str "a158aa8ab4d49cece1a0fe488d7ac7dc02bd8cf6:rtl/div.v")
    ∷ ("source_sha256", str "7e499f4c43c92154d1d4e21be2f269ac140b4f2b2d944677c71f6f4213b66dc6")
    ∷ ("scope", str waiver_scope)
    ∷ ("owner", str "verification")
    ∷ []

unfoldable pub check_locked : Fields → List (String × Json) → Result (Unit {0})
check_locked item [] = ok tt
check_locked item ((key, value) ∷ rest) = do
  require (py_eq (get key item) value) "golden div waiver drifted"
  check_locked item rest

-- `isinstance(value, str) and value.strip()`
abbrev pub is_ink : Json → Bool
is_ink (str s) = is_nonblank s
is_ink _ = false

-- `by_id[waiver_id]`
abbrev pub registered : String → Registry → Result Fields
registered k r = elim (find k r.by_id) [ none ↦ err key_error | some item ↦ ok item ]

unfoldable pub accept_waiver : Registry → Waiver → Result (Unit {0})
accept_waiver r w = do
  item ← registered w.waiver_id r
  check_locked item (locked_fields w)
  require (is_ink (get "reason" item)) "golden div waiver has no reason"
  require (is_ink (get "expires_when" item)) "golden div waiver has no expiry condition"

-- The loop over the expected waivers, with those accepted.
unfoldable pub accept_waivers : Registry → List Waiver → Result (List Waiver)
accept_waivers r [] = ok []
accept_waivers r (w ∷ rest) = do
  accept_waiver r w
  accepted ← accept_waivers r rest
  ok (w ∷ accepted)

-- `<` on texts, by code points
abbrev pub text_ltb : List ℕ → List ℕ → Bool
text_ltb s [] = false
text_ltb [] (d ∷ t) = true
text_ltb (c ∷ s) (d ∷ t) = ltb c d || c == d && text_ltb s t

unfoldable pub insert_by_id : Waiver → List Waiver → List Waiver
insert_by_id w [] = w ∷ []
insert_by_id w (v ∷ vs) =
    let later = insert_by_id w vs in
    if text_ltb (codes v.waiver_id) (codes w.waiver_id) then v ∷ later else w ∷ v ∷ vs

-- `sorted(accepted, key=lambda item: item["id"])`, a stable sort.
unfoldable pub sorted_by_id : List Waiver → List Waiver
sorted_by_id [] = []
sorted_by_id (w ∷ ws) = insert_by_id w (sorted_by_id ws)

pub record WaiverReport : Type 0 where
  pub path : String
  pub sha256 : String
  pub scope : String
  pub accepted : List Waiver

abbrev pub waiver_document : Json → Result Fields
waiver_document (obj document) = do
  require (same_set (keys document) ("schema_version" ∷ "waivers" ∷ []))
      "lint waiver document must contain schema_version and waivers"
  ok document
waiver_document _ = err (refused "lint waiver document must contain schema_version and waivers")

abbrev pub waiver_list : Fields → Json → Result Items
waiver_list document (arr waivers) = do
  require (py_eq (get "schema_version" document) (int (pos 1)))
      "lint waiver schema_version/waivers is invalid"
  ok waivers
waiver_list document _ = err (refused "lint waiver schema_version/waivers is invalid")

abbrev pub no_waivers : Registry
no_waivers = record { by_id = []; scoped_ids = [] }

-- The path and the digest of the file are arguments.
unfoldable pub validate_waivers : String → String → Json → Result WaiverReport
validate_waivers path sha256 value = do
  document ← waiver_document value
  waivers ← waiver_list document (get "waivers" document)
  registry ← read_waivers no_waivers (items waivers)
  require (same_set registry.scoped_ids expected_ids) "golden div waiver set drifted"
  accepted ← accept_waivers registry expected_waivers
  ok (record {
    path = path;
    sha256 = sha256;
    scope = waiver_scope;
    accepted = sorted_by_id accepted;
  })
