-- ===== src/Tests/Untranslated.antt =====
-- The user 2 speaks a language without a bundle, and the lobby is locked.
use phira_mp.Common.{◌≡◌, refl, true, false, none, some}
use phira_mp.Common.Eq.{nat_eq}
use phira_mp.Common.Maps.{lookup, insert}
use phira_mp.Command.Types.{room_id_eq, ClientCommand}
use phira_mp.World.{select_chart, World, panics, set_room, set_user}
use phira_mp.L10n.{add_bundle}
use phira_mp.Session.Process.{process}
use phira_mp.Session.Untranslated.{process-panics}
use phira_mp.Tests.Rooms.{world_in, env, lobby, member}

abbrev foreign : World
foreign =
    let w = world_in select_chart in
    set_user 2 (record (member 2) { lang = 9 })
      (set_room 0 (record (w.room_at 0) { locked = true }) w)

no_bundle : lookup (foreign.user_at 2).lang env.bundles.map ≡ none
unfolding add_bundle lookup insert
no_bundle = refl

lobby_listed : lookup lobby foreign.rooms ≡ some 0
unfolding lookup
lobby_listed = refl

foreign_panics :
    (process env 2 (ClientCommand.create_room lobby) foreign ≡ panics foreign)
    × (process env 2 (ClientCommand.join_room lobby false) foreign ≡ panics foreign)
foreign_panics = process-panics env 2 foreign no_bundle lobby false 0 refl lobby_listed refl
