-- ===== src/Publication/Marker/Names.antt =====
-- The names of a publication are apart: the report, the marker and their temporary files.
use nscscc_cpu.Base.{
  ℕ, suc, ◌+◌, false, List, [], ◌∷◌, ◌++◌, codes, length, length-append, text_eq, text_eq-eq, ◌≡◌,
  ◌≢◌, refl, sym, ap, ◌∙◌, arith, Bool-cases, inl, inr, Option, none, some,
}
use nscscc_cpu.Publication.Replace.{temporary_name}
use nscscc_cpu.Publication.Marker.{Publication, report_file, marker_file, Token, temporary_for}

apart : (s t : List ℕ) → s ≢ t → text_eq s t ≡ false
apart s t h = elim (Bool-cases (text_eq s t)) [ inl e ↦ absurd (h (text_eq-eq s t e)) | inr e ↦ e ]

apart_longer : (s t : List ℕ) (n : ℕ) → length s ≡ length t + suc n → text_eq s t ≡ false
apart_longer s t n h = apart s t (λ e. absurd_length (ap (λ l. length l) e))
  where
    absurd_length : length s ≡ length t → ⊥
    absurd_length e = omega (arith, h, e)

apart_shorter : (s t : List ℕ) (n : ℕ) → length t ≡ length s + suc n → text_eq s t ≡ false
apart_shorter s t n h = apart s t (λ e. absurd_length (ap (λ l. length l) e))
  where
    absurd_length : length s ≡ length t → ⊥
    absurd_length e = omega (arith, h, e)

-- The length of the name of a temporary file.
length-temporary_name :
    (name pid token : List ℕ)
    → length (temporary_name name pid token) ≡ length name + suc (length pid + length token + 6)
length-temporary_name name pid token =
    let tail = codes ".tmp" in
    omega (
      arith,
      length-append name (b'.' ∷ pid ++ (b'.' ∷ token ++ tail)),
      length-append pid (b'.' ∷ token ++ tail),
      length-append token tail,
    )

-- A temporary name is apart from the name that it stands for.
pub temporary_apart : (t : Token) (name : List ℕ) → text_eq (temporary_for t name) name ≡ false
temporary_apart t name =
    apart_longer (temporary_for t name) name (length t.pid + length t.token + 6)
      (length-temporary_name name t.pid t.token)

length-marker_file : (p : Publication) → length (marker_file p) ≡ length (report_file p) + 17
length-marker_file p = length-append (report_file p) (codes ".publication.json")

pub marker_apart : (p : Publication) → text_eq (marker_file p) (report_file p) ≡ false
marker_apart p = apart_longer (marker_file p) (report_file p) 16 (length-marker_file p)

pub report_apart : (p : Publication) → text_eq (report_file p) (marker_file p) ≡ false
report_apart p = apart_shorter (report_file p) (marker_file p) 16 (length-marker_file p)

-- The marker's temporary name is longer than the report's name.
pub marker_temporary_apart :
    (t : Token) (p : Publication)
    → text_eq (temporary_for t (marker_file p)) (report_file p) ≡ false
marker_temporary_apart t p =
    apart_longer (temporary_for t (marker_file p)) (report_file p)
      (length t.pid + length t.token + 23)
      (longer (length-temporary_name (marker_file p) t.pid t.token))
  where
    longer :
        length (temporary_for t (marker_file p))
          ≡ length (marker_file p) + suc (length t.pid + length t.token + 6)
        → length (temporary_for t (marker_file p))
          ≡ length (report_file p) + suc (length t.pid + length t.token + 23)
    longer h = omega (arith, h, length-marker_file p)

-- The last code point, which sets the report's temporary name apart from the marker's name.
last_code : List ℕ → Option ℕ
last_code [] = none
last_code (c ∷ []) = some c
last_code (c ∷ d ∷ rest) = last_code (d ∷ rest)

last_code-append :
    (xs : List ℕ) (d : ℕ) (rest : List ℕ) → last_code (xs ++ d ∷ rest) ≡ last_code (d ∷ rest)
unfolding last_code
last_code-append [] d rest = refl
last_code-append (c ∷ []) d rest = refl
last_code-append (c ∷ b ∷ xs) d rest = last_code-append (b ∷ xs) d rest

last_code-temporary_name :
    (name pid token : List ℕ) → last_code (temporary_name name pid token) ≡ some b'p'
unfolding last_code
last_code-temporary_name name pid token =
    last_code-append (b'.' ∷ name) b'.' (pid ++ (b'.' ∷ token ++ codes ".tmp"))
    ∙ last_code-append (b'.' ∷ pid) b'.' (token ++ codes ".tmp")
    ∙ last_code-append (b'.' ∷ token) b'.' (codes "tmp")

code_of : Option ℕ → ℕ
code_of none = 0
code_of (some c) = c

codes_differ : ◌≡◌ {A = ℕ} b'p' b'n' → ⊥
codes_differ h = omega (arith, h)

pub report_temporary_apart :
    (t : Token) (p : Publication)
    → text_eq (temporary_for t (report_file p)) (marker_file p) ≡ false
unfolding last_code code_of
report_temporary_apart t p = apart (temporary_for t (report_file p)) (marker_file p) (λ e.
    ends_differ (
      sym (last_code-temporary_name (report_file p) t.pid t.token)
      ∙ ap last_code e
      ∙ last_code-append (report_file p) b'.' (codes "publication.json")))
  where
    ends_differ : ◌≡◌ {A = Option ℕ} (some b'p') (some b'n') → ⊥
    ends_differ h = codes_differ (ap code_of h)
