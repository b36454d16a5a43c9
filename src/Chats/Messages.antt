-- ===== src/Chats/Messages.antt =====
-- Loading the messages of a chat, and the life of a chat.
use sync_tex.Base.{
  String, none, some, List, [], ◌∷◌, ◌==◌, eq_iff, eq_refl, true, false, not, ◌≡◌, refl, arith,
  if◌then◌else◌, find, keep, resolved, rejected, lookup, insert, lookup-insert, lookup-remove,
}
use sync_tex.Tabs.{Chat}
use sync_tex.Chats.{
  Chats, needs_messages, ensure_chat_messages, messages_answered, create_new_chat, remove_chat,
}

keep-absent :
    (k : String) (cs : List Chat)
    → find (λ (c : Chat). c.id == k) cs ≡ none
    → keep (λ (c : Chat). not (c.id == k)) cs ≡ cs
keep-absent k [] h = refl
keep-absent k (c ∷ cs) h = ground (arith, keep-absent k cs)

module _ {Message : Type 0} where
  ensure_of_needed :
      (k : String) (s : Chats Message)
      → needs_messages k s ≡ true
      → ensure_chat_messages k s
        ≡ record s { messages_loading_by_chat_id = insert k true s.messages_loading_by_chat_id }
  unfolding ensure_chat_messages
  ensure_of_needed k s h = ground arith

  -- The messages of a chat are asked for once: after a request is made for `k`, no further one is
  -- made until its answer; nor after an answer with the messages, which are then in the cache; and
  -- after a rejection the next call asks again. Whether any other chat needs a request is left as it was.
  pub messages_requested_once :
      (k j : String) (messages : List Message) (error : String) (s : Chats Message)
      → needs_messages k s ≡ true
      → (needs_messages j (ensure_chat_messages k s)
          ≡ (if k == j then false else needs_messages j s))
        × (needs_messages j (messages_answered k (resolved messages) (ensure_chat_messages k s))
            ≡ (if k == j then false else needs_messages j s))
        × (lookup k
              (messages_answered k
                (resolved messages)
                (ensure_chat_messages k s)).messages_by_chat_id
            ≡ some messages)
        × (needs_messages j (messages_answered k (rejected error) (ensure_chat_messages k s))
            ≡ needs_messages j s)
  unfolding messages_answered needs_messages
  messages_requested_once k j messages error s h = rw (ensure_of_needed k s h) (
    ground (arith, eq_iff k j, lookup-insert k j true s.messages_loading_by_chat_id),
    ground (
      arith,
      eq_iff k j,
      lookup-insert k j messages s.messages_by_chat_id,
      lookup-insert k j false (insert k true s.messages_loading_by_chat_id),
      lookup-insert k j true s.messages_loading_by_chat_id,
    ),
    ground (arith, lookup-insert k k messages s.messages_by_chat_id, eq_refl k),
    ground (
      arith,
      h,
      eq_iff k j,
      lookup-insert k j false (insert k true s.messages_loading_by_chat_id),
      lookup-insert k j true s.messages_loading_by_chat_id,
    ),
  )

  -- A chat that is created and then removed leaves the list of chats as it was, if its id was new, and
  -- neither messages nor a loading flag; other chats keep theirs.
  pub remove_chat-create_new_chat :
      (c : Chat) (j : String) (s : Chats Message)
      → find (λ (d : Chat). d.id == c.id) s.chats ≡ none
      → ((remove_chat c.id (resolved tt) (create_new_chat (resolved c) s).1).1.chats ≡ s.chats)
        × (lookup j
              (remove_chat c.id
                (resolved tt)
                (create_new_chat (resolved c) s).1).1.messages_by_chat_id
            ≡ (if c.id == j then none else lookup j s.messages_by_chat_id))
        × (lookup j
              (remove_chat c.id
                (resolved tt)
                (create_new_chat (resolved c) s).1).1.messages_loading_by_chat_id
            ≡ (if c.id == j then none else lookup j s.messages_loading_by_chat_id))
  unfolding remove_chat create_new_chat
  remove_chat-create_new_chat c j s h = (
    rw (eq_refl c.id) (keep-absent c.id s.chats h),
    ground (
      arith,
      lookup-remove c.id j (insert c.id [] s.messages_by_chat_id),
      lookup-insert c.id j [] s.messages_by_chat_id,
    ),
    lookup-remove c.id j s.messages_loading_by_chat_id,
  )
