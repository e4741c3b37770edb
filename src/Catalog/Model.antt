-- ===== src/Catalog/Model.antt =====
-- The rows of the schema `catalog` that backend/internal/catalog/write.go writes, and `NewBook` and
-- `NarratedEdition`. A text of people is its code points. Seconds that the code keeps as a float64 are
-- thousandths, which is what the columns store.
use ketapod_website.Base.{ℕ, Bool, Option, List}
use ketapod_website.Base.Int.{ℤ}
use ketapod_website.Base.Text.{Runes}

pub record Author : Type 0 where
  pub id : ℕ
  pub name : Runes
  pub slug : Runes

pub record Book : Type 0 where
  pub id : ℕ
  pub slug : Runes
  pub title : Runes
  pub author_id : Option ℕ
  pub description : Option Runes
  pub cover_url : Option Runes
  pub language : Runes
  pub is_kids_friendly : Bool
  pub status : Runes

pub record RightsGrant : Type 0 where
  pub book_id : ℕ
  pub revenue_share_percent : ℕ
  pub contract_ref : Runes

pub record Voice : Type 0 where
  pub id : Runes
  pub name : Runes
  pub style : Runes

pub record NarratedRow : Type 0 where
  pub id : ℕ
  pub book_id : ℕ
  pub voice_id : Runes
  pub language : Runes
  pub is_kids_friendly : Bool
  pub price_irr : ℤ
  pub preview_seconds : ℤ
  pub duration_seconds : ℕ
  pub is_published : Bool

pub record Chapter : Type 0 where
  pub audio_edition_id : ℕ
  pub title : Runes
  pub sort_order : ℕ
  pub start_seconds : ℕ
  pub end_seconds : ℕ

-- `NewBook`
pub record NewBook : Type 0 where
  pub title : Runes
  pub author_name : Runes
  pub description : Runes
  pub cover_url : Runes
  pub language : Runes
  pub is_kids_friendly : Bool
  pub status : Runes

-- A chapter as the caller lays it out.
pub record ChapterRange : Type 0 where
  pub title : Runes
  pub start_seconds : ℕ
  pub end_seconds : ℕ

-- `NarratedEdition`
pub record NarratedEdition : Type 0 where
  pub book_id : ℕ
  pub voice_id : Runes
  pub voice_name : Runes
  pub voice_style : Runes
  pub language : Runes
  pub is_kids_friendly : Bool
  pub price_irr : ℤ
  pub preview_seconds : ℤ
  pub duration_seconds : ℕ
  pub chapters : List ChapterRange
