-- ===== src/Auth/Replies.antt =====
-- What PostgreSQL is sent during the dialogue: answers to its challenges, and nothing else.
use mathlib.Core.Path.{subst}
use gprxy.Common.{
  ◌≡◌, sym, ap, ◌∙◌, inl, inr, Option, List, [], ◌∷◌, ◌++◌, append-nil, append_assoc, Text, Event,
  arrives, lost, Outcome, ok, err, panics, blocks,
}
use gprxy.Protocol.{BackendMessage, FrontendMessage}
use gprxy.Auth.Backend.{Scram, Session, Verdict, proceed, finished, auth_step, go_on, auth_loop}
use gprxy.Auth.Answers.{
  conversation_after, Replies, done, silent, answered, Sends, Converses, auth_step-AnswersOnce,
}

module _ {Conv : Type 0} (scram : Scram Conv) (md5_hex : Text → Text)
    (username password : Text) where
  -- What the messages of a dialogue add to what PostgreSQL was sent.
  abbrev pub Adds : List (Event BackendMessage) → Session Conv → Session Conv → Type 0
  Adds script s s' =
      (fs : List FrontendMessage) × (s'.backend.sent ≡ s.backend.sent ++ fs)
      × Replies scram md5_hex username password s.conversation script fs

  -- The same for the messages behind a first one.
  abbrev Goes : Option Conv → List (Event BackendMessage) → Session Conv → Session Conv → Type 0
  Goes o script s s' =
      (fs : List FrontendMessage) × (s'.backend.sent ≡ s.backend.sent ++ fs)
      × Replies scram md5_hex username password o script fs

  Adds-cons :
      (m : BackendMessage) (script : List (Event BackendMessage)) (s : Session Conv)
      (r : Outcome Verdict × Session Conv) (s' : Session Conv)
      → Sends scram md5_hex username password m s r
      → Goes (conversation_after scram md5_hex username password s.conversation m) script r.1 s'
      → Adds (arrives m ∷ script) s s'
  Adds-cons m script s r s' (inl e) (fs, p, h) = (fs, p ∙ ap (λ x. x ++ fs) e, silent h)
  Adds-cons m script s r s' (inr (f, e, i)) (fs, p, h) =
      (f ∷ fs, p ∙ ap (λ x. x ++ fs) e ∙ append_assoc s.backend.sent (f ∷ []) fs, answered i h)

  -- However the dialogue ends, PostgreSQL was sent answers to its own challenges, in order and each
  -- at most once: the password itself when it asked for it in clear, the MD5 digest of the
  -- credentials for its salt, and, after it offered SCRAM-SHA-256 or continued, the response of the
  -- SCRAM library for these credentials to what PostgreSQL had sent since the conversation began.
  pub auth_loop-Adds :
      (script : List (Event BackendMessage)) (s : Session Conv)
      → Adds script s (auth_loop scram md5_hex username password script s).1
  unfolding auth_loop
  auth_loop-Adds [] s = ([], sym (append-nil s.backend.sent), done s.conversation [])
  auth_loop-Adds (lost ∷ script) s =
      ([], sym (append-nil s.backend.sent), done s.conversation (lost ∷ script))
  auth_loop-Adds (arrives m ∷ script) s =
      let (sends, conv) = auth_step-AnswersOnce scram md5_hex username password m s in
      Adds-cons m script s (auth_step scram md5_hex username password m s)
        (go_on scram md5_hex username password (auth_loop scram md5_hex username password script)
          (auth_step scram md5_hex username password m s)).1
        sends
        (follows (conversation_after scram md5_hex username password s.conversation m)
          (auth_step scram md5_hex username password m s) conv
          (auth_loop-Adds script (auth_step scram md5_hex username password m s).1))
    where
      stop : (o : Option Conv) (t : Session Conv) → Goes o script t t
      stop o t = ([], sym (append-nil t.backend.sent), done o script)

      follows :
          (o : Option Conv) (q : Outcome Verdict × Session Conv)
          → Converses scram md5_hex username password o q
          → Adds script q.1 (auth_loop scram md5_hex username password script q.1).1
          → Goes o script q.1
              (go_on scram md5_hex username password
                (auth_loop scram md5_hex username password script)
                q).1
      follows o (ok proceed, t) c (fs, p, h) =
          (fs, p, subst (λ x. Replies scram md5_hex username password x script fs) c h)
      follows o (ok finished, t) c h = stop o t
      follows o (err e, t) c h = stop o t
      follows o (panics, t) c h = stop o t
      follows o (blocks, t) c h = stop o t
