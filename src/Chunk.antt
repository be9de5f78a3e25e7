-- ===== src/Chunk.antt =====
-- rag_cpp/src/document.cpp, rag_cpp/include/mimicrag/document.h: what PlanChunks, which cuts the text
-- of a document into chunks, works on, and where a chunk may end. A size_t is a number modulo 2 ^ 64, npos and SIZE_MAX are `none`.
pub mod Fast
pub mod Structured
pub mod Plan
pub mod Ends
pub mod Window
pub mod Cover
pub mod Stuck
pub mod Dense
use mimic_rag.Column.{sub_u64, u64}
use mimic_rag.Text.{same_text}
use mimic_rag.Prelude.{
  ℕ, zero, suc, ◌+◌, ◌-◌, ◌*◌, ◌/◌, ◌%◌, ◌^◌, ◌≤◌, ◌<◌, min, max, bit_and, bit_or, bit_xor, ◌≡◌,
  refl, sym, ap, ap₂, subst, ◌∙◌, ◌≢◌, ◌↔◌, ◌⊎◌, inl, inr, Bool, true, false, not, ◌&&◌, ◌||◌,
  Option, none, some, List, [], ◌∷◌, ◌++◌, map, arith, dec_lt, ℕ_discrete, ltb, leb, ◌==◌,
  if◌then◌else◌, lt→ltb, le→ltb, le→leb, and-parts, and-true, ==_refl, ==_iff, Bool-cases,
  Option-cases, length, get_or, get_elem?, count, count-append, count_single, set, take, drop,
  replicate, resize, All, length-append, length-replicate, length-set, length-take, length-drop,
  length-resize, take-append-drop, get_or-set_self, get_or-set_ne, get_or-replicate,
  get_or-ge_length, get_or-resize, get_or_ext, get_or-append_left, get_or-append_right, length-map,
  for_below, for_below_inv, for_below-add, unrolled, unrolled-for_below, fill_if, length-fill_if,
  get_or-fill_if, rank, passing, length-passing, count-passing, fill, length-fill, get_or-fill,
  take-append, drop-append, append-nil, append_assoc,
}

pub record DocumentBlock : Type 0 where
  pub type : List ℕ
  pub text : List ℕ
  pub section_path : List ℕ
  pub start : ℕ
  pub end : ℕ
  pub page : ℕ
  pub heading_level : ℕ

pub record NormalizedDocument : Type 0 where
  pub format : List ℕ
  pub parser_version : List ℕ
  pub title : List ℕ
  pub source_text : List ℕ
  pub blocks : List DocumentBlock

pub record ChunkPlan : Type 0 where
  pub start : ℕ
  pub end : ℕ
  pub page_start : ℕ
  pub page_end : ℕ
  pub section_path : List ℕ
  pub strategy : List ℕ
  pub contextual_header : List ℕ

pub record ChunkingOptions : Type 0 where
  pub mode : List ℕ
  pub target_chars : ℕ
  pub minimum_chars : ℕ
  pub maximum_chars : ℕ
  pub overlap_chars : ℕ
  pub maximum_chunks : ℕ

-- What PlanChunks throws; `out_of_fuel` is of the model.
pub data PlanError : Type 0 where
  invalid_budget too_many_chunks unknown_mode out_of_fuel : PlanError

pub data Planned {ℓ} (A : Type ℓ) : Type ℓ where
  planned : A → Planned A
  thrown : PlanError → Planned A

infixl 10 ◌>>=◌
abbrev pub ◌>>=◌ {ℓ κ} : {A : Type ℓ} {B : Type κ} → Planned A → (A → Planned B) → Planned B
planned a >>= f = f a
thrown e >>= f = thrown e

unfoldable pub is_at : ℕ → List ℕ → ℕ → Bool
is_at c text i = elim (get_elem? text i) [ none ↦ false | some x ↦ x == c ]

-- rfind of a character, from a position backwards.
unfoldable pub rfind : ℕ → List ℕ → ℕ → Option ℕ
rfind c text zero = if is_at c text 0 then some 0 else none
rfind c text (suc n) =
    let before = rfind c text n in if is_at c text (suc n) then some (suc n) else before

-- Where the next window starts.
abbrev pub next_start : ℕ → ℕ → ℕ
next_start end overlap = if ltb overlap end then end - overlap else end

-- The markers of BoundaryBefore, in their order.
abbrev pub markers : List ℕ
markers = 10 ∷ 46 ∷ 59 ∷ 32 ∷ []

abbrev pub behind_marker : Option ℕ → ℕ → ℕ → ℕ
behind_marker none least other = other
behind_marker (some at) least other = if leb least (u64 (at + 1)) then u64 (at + 1) else other

unfoldable pub first_boundary : List ℕ → List ℕ → ℕ → ℕ → ℕ
first_boundary [] text desired least = desired
first_boundary (marker ∷ rest) text desired least =
    behind_marker (rfind marker text desired) least (first_boundary rest text desired least)

unfoldable pub boundary_before : List ℕ → ℕ → ℕ → ℕ → ℕ
boundary_before text start desired minimum =
    if leb (length text) desired
    then length text
    else first_boundary markers text desired (u64 (start + minimum))
