-- ===== src/Message.antt =====
-- The messages of Boost.Beast, which the program reads and fills: `http::request` and
-- `http::response` with a text for a body. Nothing of Boost.Beast stands in the repository, so it is
-- a record of operations, with the documented laws that a getter sees its own setter and no other.
use book_filer_module_http.Prelude.{ℕ, ◌≡◌, Bool, Option, Text, codes}

-- `http::verb`.
pub data Verb : Type 0 where
  get head post other_verb : Verb

pub record RequestLib : Type 1 where
  pub Message : Type 0
  pub new_message : Message
  pub method : Message → Verb
  pub method_string : Message → Text
  pub target : Message → Text
  pub find_field : Text → Message → Option Text
  pub version : Message → ℕ
  pub keep_alive : Message → Bool
  pub set_method : Verb → Message → Message
  pub set_target : Text → Message → Message
  pub set_keep_alive : Bool → Message → Message
  pub set_field : Text → Text → Message → Message
  pub method-set_method : (v : Verb) (m : Message) → method (set_method v m) ≡ v
  pub method-set_target : (t : Text) (m : Message) → method (set_target t m) ≡ method m
  pub method-set_keep_alive : (b : Bool) (m : Message) → method (set_keep_alive b m) ≡ method m
  pub method-set_field : (k v : Text) (m : Message) → method (set_field k v m) ≡ method m
  pub target-set_target : (t : Text) (m : Message) → target (set_target t m) ≡ t
  pub target-set_keep_alive : (b : Bool) (m : Message) → target (set_keep_alive b m) ≡ target m
  pub target-set_field : (k v : Text) (m : Message) → target (set_field k v m) ≡ target m
  pub keep_alive-set_keep_alive : (b : Bool) (m : Message) → keep_alive (set_keep_alive b m) ≡ b
  pub keep_alive-set_host :
      (v : Text) (m : Message) → keep_alive (set_field (codes "Host") v m) ≡ keep_alive m

pub record ResponseLib : Type 1 where
  pub Message : Type 0
  pub new_message : Message
  pub status : Message → ℕ
  pub version : Message → ℕ
  pub keep_alive : Message → Bool
  pub body : Message → Text
  pub set_result : ℕ → Message → Message
  pub set_version : ℕ → Message → Message
  pub set_field : Text → Text → Message → Message
  pub set_keep_alive : Bool → Message → Message
  pub set_body : Text → Message → Message
  pub set_content_length : ℕ → Message → Message
  pub prepare_payload : Message → Message
  pub status-set_result : (n : ℕ) (m : Message) → status (set_result n m) ≡ n
  pub status-set_version : (n : ℕ) (m : Message) → status (set_version n m) ≡ status m
  pub status-set_field : (k v : Text) (m : Message) → status (set_field k v m) ≡ status m
  pub status-set_keep_alive : (b : Bool) (m : Message) → status (set_keep_alive b m) ≡ status m
  pub status-set_body : (t : Text) (m : Message) → status (set_body t m) ≡ status m
  pub status-set_content_length : (n : ℕ) (m : Message) → status (set_content_length n m) ≡ status m
  pub status-prepare_payload : (m : Message) → status (prepare_payload m) ≡ status m
  pub keep_alive-set_keep_alive : (b : Bool) (m : Message) → keep_alive (set_keep_alive b m) ≡ b
  pub keep_alive-set_body : (t : Text) (m : Message) → keep_alive (set_body t m) ≡ keep_alive m
  pub keep_alive-set_content_length :
      (n : ℕ) (m : Message) → keep_alive (set_content_length n m) ≡ keep_alive m
  pub keep_alive-prepare_payload : (m : Message) → keep_alive (prepare_payload m) ≡ keep_alive m
  pub body-set_body : (t : Text) (m : Message) → body (set_body t m) ≡ t
  pub body-set_content_length : (n : ℕ) (m : Message) → body (set_content_length n m) ≡ body m
  pub body-prepare_payload : (m : Message) → body (prepare_payload m) ≡ body m
