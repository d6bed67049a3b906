-- ===== src/Flourish/Store/Domain.antt =====
-- event.go, entry.go, errors.go and repository.go of flourish/server/domain. A string is the list of
-- its runes, a payload is a value of the type `P` (bytes that only the JSON package looks into), and
-- a time is a number that the clock supplies.
use tanzlaurel.Base.{ℕ, List, [], Bool, false, Option, none}
use tanzlaurel.Base.Errors.{Result}
use tanzlaurel.Base.Int.{ℤ}

pub data EventType : Type 0 where
  crdt_op entry_create entry_delete : EventType

pub record Event (P : Type 0) : Type 0 where
  pub entry_id : ℕ
  pub server_seq : ℕ
  pub request_id : ℕ
  pub event_type : EventType
  pub site_id : ℕ
  pub payload : P
  pub created_at : ℕ

pub record Entry : Type 0 where
  pub id : ℕ
  pub title : List ℕ
  pub content : List ℕ
  pub thumbnail : Option (List ℕ)
  pub text : List ℕ
  pub created_at : ℕ
  pub updated_at : ℕ
  pub deleted : Bool

pub record EntryListItem : Type 0 where
  pub id : ℕ
  pub title : List ℕ
  pub content : List ℕ
  pub thumbnail : Option (List ℕ)
  pub created_at : ℕ
  pub updated_at : ℕ

-- `id` is what `uuid.New` draws, and `now` the time.
unfoldable pub new_entry : ℕ → ℕ → Entry
new_entry id now = record {
  id = id;
  title = [];
  content = [];
  thumbnail = none;
  text = [];
  created_at = now;
  updated_at = now;
  deleted = false;
}

unfoldable pub to_list_item : Entry → EntryListItem
to_list_item e = record {
  id = e.id;
  title = e.title;
  content = e.content;
  thumbnail = e.thumbnail;
  created_at = e.created_at;
  updated_at = e.updated_at;
}

-- `internal` is any error of a store that is neither of the two that the package names.
pub data StoreError : Type 0 where
  entry_not_found entry_deleted internal : StoreError

-- The interface `EventStore`, over the state `S` of a store.
pub record EventStoreApi (P S : Type 0) : Type 0 where
  pub append : Event P → S → S × Result StoreError ℕ
  pub list_after : S → ℕ → ℤ → Result StoreError (List (Event P))
  pub max_server_seq : S → ℕ → Result StoreError ℕ
