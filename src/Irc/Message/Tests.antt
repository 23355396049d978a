-- ===== src/Irc/Message/Tests.antt =====
-- Runs of the parser and the printer of pkg/irc/message.go.
use webircgateway.Base.{
  ◌≡◌, ◌≢◌, ◌↔◌, refl, none, some, [], ◌∷◌, ◌++◌, arith, All, ok, panic, diverge,
}
use webircgateway.Text.Bytes.{Bytes, codes, has_prefix}
use webircgateway.Text.Trim.{Clean}
use webircgateway.Irc.Message.Reading.{TagOk, MiddleOk}
use webircgateway.Irc.Message.Stages.{CommandOk}
use webircgateway.Irc.Message.Masks.{HostFirst, create_mask-full}
use webircgateway.Irc.Message.Total.{parse_line-ne-diverge, parse_line-panic}
use webircgateway.Irc.Message.RoundTrip.{
  IsPrintable, SourceOk, reread, parse_line-to_line_host, parse_line-to_line_user,
}
use webircgateway.Irc.Message.{prefix_text, Message, parse_line, to_line, Mask, create_mask}
use webircgateway.Text.Index.{index}

abbrev full : Message
full = record {
  raw = codes "@a=b;c :n!u@h PRIVMSG #c :hello you";
  tags = (codes "a", codes "b") ∷ (codes "c", []) ∷ [];
  prefix = some (record {
    nick = codes "n";
    username = codes "u";
    hostname = codes "h";
    mask = codes "n!u@h";
  });
  command = codes "PRIVMSG";
  params = codes "#c" ∷ codes "hello you" ∷ [];
}

parse_full :
    parse_line (codes "@a=b;c  :n!u@h PRIVMSG #c :hello you\r\n")
    ≡ ok (record full { raw = codes "@a=b;c  :n!u@h PRIVMSG #c :hello you" }, none)
unfolding parse_line
parse_full = refl

print_full : to_line full ≡ codes "@a=b;c :n!u@u PRIVMSG #c :hello you"
unfolding to_line
print_full = refl

parse_panics : parse_line (codes ":h@n!u PRIVMSG #c") ≡ panic
unfolding parse_line
parse_panics = refl

abbrev from_user : Mask
from_user = record { nick = codes "nick"; username = codes "user"; hostname = []; mask = [] }

abbrev from_host : Mask
from_host = record {
  nick = codes "nick";
  username = codes "user";
  hostname = codes "host";
  mask = [];
}

abbrev said : Mask → Message
said p = record {
  raw = [];
  tags = (codes "+a", codes "1") ∷ (codes "time", codes "now") ∷ [];
  prefix = some p;
  command = codes "PRIVMSG";
  params = codes "#chan" ∷ codes ":hello you" ∷ [];
}

tag_a : TagOk (codes "+a", codes "1")
tag_a = record {
  named = cc;
  name_space = omega arith;
  name_semicolon = omega arith;
  name_equals = omega arith;
  value_space = omega arith;
  value_semicolon = omega arith;
  value_equals = omega arith;
}

tag_time : TagOk (codes "time", codes "now")
tag_time = record {
  named = cc;
  name_space = omega arith;
  name_semicolon = omega arith;
  name_equals = omega arith;
  value_space = omega arith;
  value_semicolon = omega arith;
  value_equals = omega arith;
}

privmsg_ok : CommandOk b'P' (codes "RIVMSG")
privmsg_ok = record { no_space = omega arith; no_tags = omega arith; no_source = omega arith }

chan_ok : MiddleOk (codes "#chan")
chan_ok = record { not_empty = cc; no_space = omega arith; no_colon = unfold has_prefix in refl }

printable_params : All Clean (codes "#chan" ∷ codes ":hello you" ∷ [])
printable_params = ground arith

said_user-IsPrintable : IsPrintable (said from_user)
said_user-IsPrintable = record {
  tags_ok = (tag_a, (tag_time, tt));
  tags_distinct = ((cc, tt), (tt, tt));
  source_space = unfold prefix_text in omega arith;
  command_fits = privmsg_ok;
  params_ok = (chan_ok, cc);
  tags_clean = ground arith;
  source_clean = unfold prefix_text in ground arith;
  command_clean = ground arith;
  params_clean = printable_params;
}

said_host-IsPrintable : IsPrintable (said from_host)
said_host-IsPrintable = record {
  tags_ok = (tag_a, (tag_time, tt));
  tags_distinct = ((cc, tt), (tt, tt));
  source_space = unfold prefix_text in omega arith;
  command_fits = privmsg_ok;
  params_ok = (chan_ok, cc);
  tags_clean = ground arith;
  source_clean = unfold prefix_text in ground arith;
  command_clean = ground arith;
  params_clean = printable_params;
}

user_ok : (h : Bytes) → SourceOk (record from_user { hostname = h })
user_ok h = record { nick_user = omega arith; nick_host = omega arith; username_host = omega arith }

parse_line-to_line_user_example :
    parse_line (to_line (said from_user))
    ≡ ok (reread (said from_user) (record from_user { mask = prefix_text from_user }), none)
parse_line-to_line_user_example =
    parse_line-to_line_user (said from_user) from_user said_user-IsPrintable refl (user_ok []) refl
      (λ h. cc)

parse_line-to_line_host_example :
    parse_line (to_line (said from_host))
    ≡ ok (
      reread
          (said from_host)
          (record from_host { hostname = from_host.username; mask = prefix_text from_host }),
      none,
    )
parse_line-to_line_host_example =
    parse_line-to_line_host (said from_host) from_host said_host-IsPrintable refl
      (user_ok (codes "host")) (cc) (cc) (cc)

parse_line-ne-diverge_example : parse_line (codes "PRIVMSG #c  a :b c") ≢ diverge
parse_line-ne-diverge_example = parse_line-ne-diverge (codes "PRIVMSG #c  a :b c")

parse_line-panic_example :
    (parse_line (b':' ∷ (codes "h@n!u" ++ b' ' ∷ codes "PING")) ≡ panic)
    ↔ HostFirst (index (codes "h@n!u") b'!') (index (codes "h@n!u") b'@')
parse_line-panic_example =
    parse_line-panic (codes "h@n!u") (codes "PING") (omega arith) (ground arith) (ground arith)

create_mask-full_example :
    create_mask (codes "n" ++ b'!' ∷ (codes "u" ++ b'@' ∷ codes "h!@"))
    ≡ ok (record {
      nick = codes "n";
      username = codes "u";
      hostname = codes "h!@";
      mask = codes "n" ++ b'!' ∷ (codes "u" ++ b'@' ∷ codes "h!@");
    })
create_mask-full_example =
    create_mask-full (codes "n") (codes "u") (codes "h!@") (omega arith) (omega arith) (omega arith)
