-- ===== src/Db/Repo.antt =====
-- The interface LinkRepo of internal/db/link_repo.go over a state of its implementation, and its
-- SQL implementation.
use golink_url_shortener.Base.{Text, ℕ, Bool, List}
use golink_url_shortener.Base.{Result}
use golink_url_shortener.Db.Models.{Link, LinkType, SortField, SortDir}
use golink_url_shortener.Db.Sql.{DbError, Db}
use golink_url_shortener.Db.LinkRepo
use golink_url_shortener.Db.Listing

abbrev pub Call : Type 0 → Type 0 → Type 0
Call S A = S → Result DbError A × S

pub record Repo (S : Type 0) : Type 0 where
  pub create : Text → Text → Text → LinkType → Text → Bool → Call S Link
  pub get_by_name : Text → Call S Link
  pub update : ℕ → Text → Text → LinkType → Bool → Call S Link
  pub set_alias : ℕ → Text → Text → Bool → ℕ → Call S Link
  pub delete : ℕ → Call S (Unit {0})
  pub list_links : ℕ → ℕ → SortField → SortDir → Bool → Call S (List Link × ℕ)
  pub list_by_owner : Text → ℕ → ℕ → SortField → SortDir → Call S (List Link × ℕ)
  pub search_links : Text → ℕ → ℕ → SortField → SortDir → Bool → Call S (List Link × ℕ)
  pub search_owned_or_shared_with :
      Text → List Text → Text → ℕ → ℕ → SortField → SortDir → Call S (List Link × ℕ)
  pub get_shares : ℕ → Call S (List Text)
  pub add_share : ℕ → Text → Call S (Unit {0})
  pub remove_share : ℕ → Text → Call S (Unit {0})
  pub shared_link_ids : List Text → Call S (List ℕ)
  pub list_owned_or_shared_with :
      Text → List Text → ℕ → ℕ → SortField → SortDir → Call S (List Link × ℕ)
  pub increment_use_count : ℕ → Call S (Unit {0})
  pub get_aliases : Text → Call S (List Link)
  pub count_aliases : Text → Call S ℕ
  pub reassign_links : Text → Text → Call S ℕ
  pub transfer_ownership : ℕ → Text → Call S Link

abbrev pub sql_repo : Repo Db
sql_repo = record {
  create = LinkRepo.create;
  get_by_name = LinkRepo.get_by_name;
  update = LinkRepo.update;
  set_alias = LinkRepo.set_alias;
  delete = LinkRepo.delete;
  list_links = Listing.list;
  list_by_owner = Listing.list_by_owner;
  search_links = Listing.search;
  search_owned_or_shared_with = Listing.search_owned_or_shared_with;
  get_shares = LinkRepo.get_shares;
  add_share = LinkRepo.add_share;
  remove_share = LinkRepo.remove_share;
  shared_link_ids = Listing.shared_link_ids;
  list_owned_or_shared_with = Listing.list_owned_or_shared_with;
  increment_use_count = LinkRepo.increment_use_count;
  get_aliases = Listing.get_aliases;
  count_aliases = LinkRepo.count_aliases;
  reassign_links = LinkRepo.reassign_links;
  transfer_ownership = LinkRepo.transfer_ownership;
}
