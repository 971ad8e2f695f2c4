-- ===== src/Github/Documents/Records.antt =====
-- The documents of `FirestoreGitHubStore` of github.py, and their coding.
use i_promise.Base.{ℕ, false, String, Option, none, some, List, [], string_eq}
use i_promise.Dict.{Dict}
use i_promise.Models.{GitHubRepository}
use i_promise.Github.{PublishedIssue, Connection}

-- A state is filed with `kind` "install" or "oauth".
pub data StateDocument : Type 0 where
  install : ℕ → StateDocument
  oauth : ℕ → String → ℕ → StateDocument

pub record ReceiptDocument : Type 0 where
  pub url : String
  pub number : ℕ
  pub remote_id : ℕ

pub record IntentDocument : Type 0 where
  pub fingerprint : String
  pub status : String
  pub owner : Option String
  pub lease_expires_at : ℕ
  pub receipt : Option ReceiptDocument
  pub completed_by : Option String
  pub updated_at : ℕ

pub record ConnectionDocument : Type 0 where
  pub installation_id : ℕ
  pub account_login : String
  pub repositories : List GitHubRepository
  pub selected_repository_id : Option ℕ
  pub updated_at : ℕ

pub record FirestoreGitHubStore : Type 0 where
  pub states : Dict String StateDocument
  pub active : Option ConnectionDocument
  pub issue_intents : Dict String IntentDocument

abbrev pub new_database : FirestoreGitHubStore
new_database = record { states = []; active = none; issue_intents = [] }

unfoldable pub encode_issue_receipt : PublishedIssue → ReceiptDocument
encode_issue_receipt receipt = record {
  url = receipt.url;
  number = receipt.number;
  remote_id = receipt.remote_id;
}

unfoldable pub decode_issue_receipt : Option ReceiptDocument → Option PublishedIssue
decode_issue_receipt none = none
decode_issue_receipt (some document) = some (record {
  url = document.url;
  number = document.number;
  remote_id = document.remote_id;
  reconciled = false;
})

unfoldable pub encode_connection : ℕ → Connection → ConnectionDocument
encode_connection now connection = record {
  installation_id = connection.installation_id;
  account_login = connection.account_login;
  repositories = connection.repositories;
  selected_repository_id = connection.selected_repository_id;
  updated_at = now;
}

unfoldable pub decode_connection : ConnectionDocument → Connection
decode_connection document = record {
  installation_id = document.installation_id;
  account_login = document.account_login;
  repositories = document.repositories;
  selected_repository_id = document.selected_repository_id;
}
