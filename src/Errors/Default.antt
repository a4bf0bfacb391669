-- ===== src/Errors/Default.antt =====
-- shared/custom_errors.py: the `default_error` of each news route.
use news_board.Errors.{Error}

abbrev pub get_posts : Error
get_posts = record { code = 2300; key = "ERRORS.NEWS.GET_POSTS" }

abbrev pub get_post : Error
get_post = record { code = 2301; key = "ERRORS.NEWS.GET_POST" }

abbrev pub create_post : Error
create_post = record { code = 2303; key = "ERRORS.NEWS.CREATE_POST" }

abbrev pub update_post : Error
update_post = record { code = 2304; key = "ERRORS.NEWS.UPDATE_POST" }

abbrev pub delete_post : Error
delete_post = record { code = 2305; key = "ERRORS.NEWS.DELETE_POST" }

abbrev pub cast_vote : Error
cast_vote = record { code = 2311; key = "ERRORS.NEWS.CAST_VOTE" }

abbrev pub get_results : Error
get_results = record { code = 2312; key = "ERRORS.NEWS.GET_RESULTS" }
