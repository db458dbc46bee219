-- ===== src/Feed.antt =====
-- services/news-feed/store: users, posts, follows and the timelines that a post is pushed to. A map of
-- pointers is an association list of records; posts are never written after they are made. The clock,
-- the printing of a time and `sort.Slice` by decreasing time enter as arguments.
pub mod Fanout
mod Samples
use faisalaffan_design_syste.Base.{
  ℕ, ◌+◌, ◌-◌, String, Bool, true, false, ◌&&◌, List, [], ◌∷◌, ◌++◌, ltb, leb, if◌then◌else◌,
  length, take, drop, nat_key, string_key, lookup, insert, get_or, sort, contains,
}

pub record Post : Type 0 where
  pub id : String
  pub user_id : String
  pub content : String
  pub created_at : ℕ

pub record MemoryStore : Type 0 where
  pub users : List String
  pub posts : List (String × List Post)
  pub follows : List (String × List (String × Bool))
  pub timeline : List (String × List Post)
  pub post_seq : ℕ

abbrev pub new_store : MemoryStore
new_store = record { users = []; posts = []; follows = []; timeline = []; post_seq = 0 }

-- The list that a map holds for a key, empty when there is none.
unfoldable pub list_at : String → List (String × List Post) → List Post
list_at key m = get_or (lookup key m) []

-- `CreateUser`
unfoldable pub create_user : String → MemoryStore → MemoryStore
create_user id s = record s {
  users = id ∷ s.users;
  posts = insert id [] s.posts;
  timeline = insert id [] s.timeline;
}

-- `s.follows[followerID][userID]`
unfoldable pub is_following : String → String → MemoryStore → Bool
is_following follower followee s =
    get_or (lookup followee (get_or (lookup follower s.follows) [])) false

-- `timeline[id] = append([]*Post{p}, timeline[id]...)`
unfoldable pub push : Post → String → List (String × List Post) → List (String × List Post)
unfolding list_at
push p id m = insert id (p ∷ list_at id m) m

-- The fan-out over the keys of `follows`, in the order of the iteration.
unfoldable pub fan_out :
    Post → MemoryStore → List String → List (String × List Post) → List (String × List Post)
unfolding push is_following
fan_out p s [] m = m
fan_out p s (follower ∷ rest) m =
    fan_out p s rest (if is_following follower p.user_id s then push p follower m else m)

-- `CreatePost`, for the post that it makes; `order` is the order in which the map `follows` is walked.
unfoldable pub create_post : Post → List String → MemoryStore → MemoryStore
unfolding fan_out push list_at
create_post p order s = record s {
  post_seq = s.post_seq + 1;
  posts = insert p.user_id (list_at p.user_id s.posts ++ p ∷ []) s.posts;
  timeline = push p p.user_id (fan_out p s order s.timeline);
}

-- `Follow`; false when one of the two is not a user.
unfoldable pub follow : String → String → MemoryStore → MemoryStore × Bool
follow follower followee s =
    let added = insert followee true (get_or (lookup follower s.follows) []) in
    if contains follower s.users && contains followee s.users
    then (record s { follows = insert follower added s.follows }, true)
    else (s, false)

-- `GetTimeline`, for a limit that is not negative.
unfoldable pub get_timeline : String → ℕ → ℕ → MemoryStore → List Post
unfolding list_at
get_timeline user offset limit s =
    let tl = list_at user s.timeline in
    let end = if ltb (length tl) (offset + limit) then length tl else offset + limit in
    if leb (length tl) offset then [] else take (end - offset) (drop offset tl)

-- `GetUserPosts`: the posts by decreasing time.
unfoldable pub get_user_posts : String → MemoryStore → List Post
unfolding list_at
get_user_posts user s = sort (λ a b. leb b.created_at a.created_at) (list_at user s.posts)
