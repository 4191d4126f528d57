-- ===== src/Api/Store.antt =====
-- What the module holds beside its functions: the session, the stored token and the pending
-- notice, with the events dispatched on the window, the last one first.
use tenancit.Base.{List, [], ◌∷◌, Option, none, some, Text}

pub data AdminAuthMessage : Type 0 where
  invalid_token required_access session_expired : AdminAuthMessage

-- An OIDC session; the instants and the identifiers are the texts of the response.
pub record AdminSession : Type 0 where
  pub issuer : Text
  pub subject : Text
  pub label : Text
  pub session_id : Text
  pub roles : List Text
  pub permissions : List Text
  pub csrf_token : Text
  pub expires_at : Text
  pub idle_expires_at : Text

pub data Event : Type 0 where
  admin_token_change admin_session_change : Event
  admin_auth_required : AdminAuthMessage → Event

-- The variables of the module, and the entry of local storage under the token's key.
pub record Client : Type 0 where
  pub current_admin_session : Option AdminSession
  pub pending_admin_auth_message : Option AdminAuthMessage
  pub stored_token : Option Text
  pub events : List Event

abbrev pub dispatch : Event → Client → Client
dispatch e s = record s { events = e ∷ s.events }

unfoldable pub set_admin_session : Option AdminSession → Client → Client
set_admin_session session s =
    dispatch admin_session_change (record s { current_admin_session = session })

-- The notice, and the client without it.
unfoldable pub consume_pending_admin_auth_message : Client → Option AdminAuthMessage × Client
consume_pending_admin_auth_message s =
    (s.pending_admin_auth_message, record s { pending_admin_auth_message = none })

unfoldable pub clear_admin_token : Client → Client
clear_admin_token s = dispatch admin_token_change (record s { stored_token = none })

abbrev pub or_empty : Option Text → Text
or_empty none = []
or_empty (some t) = t

unfoldable pub get_admin_token : Client → Text
get_admin_token s = or_empty s.stored_token

unfoldable pub set_admin_token : Text → Client → Client
set_admin_token token s =
    dispatch admin_token_change
      (record s { pending_admin_auth_message = none; stored_token = some token })

unfoldable pub notify_admin_auth_required : AdminAuthMessage → Client → Client
notify_admin_auth_required message s =
    dispatch (admin_auth_required message) (record s { pending_admin_auth_message = some message })
